-- ===== src/Merkle/Rfc.antt =====
-- RFC 6962, section 2.1, for `export_merkle_root` of src/tc_ledger/ledger.py.
use mathlib.Core.List.{map-append}
use tc_ledger.Prelude.{ℕ, ◌^◌, ◌≤◌, ◌<◌, ◌≡◌, ◌∙◌, ap, List, [], ◌++◌, length, length-map, arith}
use tc_ledger.Py.Result.{ok, ◌>>=◌}
use tc_ledger.Py.Str.{Bytes}
use tc_ledger.Merkle.Hash.{Sha256, node, node_hash, node_hash-eq-node, export_leaf_hash}
use tc_ledger.Merkle.Levels.{export_merkle_root}
use tc_ledger.Merkle.Split.{root-append}
use tc_ledger.Merkle.Inclusion.{leaves}
use tc_ledger.Merkle.Generator.{tree_root, export_merkle_root-eq-tree_root}
use tc_ledger.Merkle.Prefix.{tree_root-IsHash}

module _ (sha : Sha256) where
  -- The root of an export that consists of `2 ^ j` lines and of between one and `2 ^ j` further lines
  -- is the node hash of the roots of the two parts, as RFC 6962 defines the tree.
  pub export_merkle_root-append :
      (j : ℕ) (first second : List Bytes)
      → length first ≡ 2 ^ j
      → 0 < length second
      → length second ≤ 2 ^ j
      → export_merkle_root sha (first ++ second) ≡ (do
        left ← export_merkle_root sha first
        right ← export_merkle_root sha second
        node_hash sha left right)
  export_merkle_root-append j first second e p q =
      let left = leaves sha first in
      let right = leaves sha second in
      let size_l = length-map (export_leaf_hash sha) first in
      let size_r = length-map (export_leaf_hash sha) second in
      rw
        (
          export_merkle_root-eq-tree_root sha first,
          export_merkle_root-eq-tree_root sha second,
          node_hash-eq-node sha (tree_root sha left) (tree_root sha right)
              (tree_root-IsHash sha first) (tree_root-IsHash sha second),
        )
        (export_merkle_root-eq-tree_root sha (first ++ second)
          ∙ ap (λ t. ok (tree_root sha t)) (map-append (export_leaf_hash sha) first second)
          ∙ ap ok (
              root-append (node sha) (sha.digest []) j left right (omega arith) (omega arith)
                (omega arith)))
