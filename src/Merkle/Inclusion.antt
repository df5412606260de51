-- ===== src/Merkle/Inclusion.antt =====
-- Inclusion proofs of src/tc_ledger/ledger.py: every leaf's proof verifies, and has the directions
-- that the artifact verifier expects.
use tc_ledger.Prelude.{
  ℕ, suc, ◌<◌, ◌≡◌, true, some, List, [], ◌∷◌, ◌==◌, leb, map, length, length-map, get_elem?,
  get_elem?-map, get_elem?-some, All, All-map, false, arith,
}
use tc_ledger.Py.Result.{ok, ◌>>=◌}
use tc_ledger.Py.Int.{pos}
use tc_ledger.Py.Str.{Str, Bytes, same, same_refl}
use tc_ledger.Merkle.Hash.{Sha256, IsHash, node, export_leaf_hash, export_leaf_hash-IsHash}
use tc_ledger.Merkle.Tree.{tower, path, fold_path, join, fold-path}
use tc_ledger.Merkle.Levels.{
  drop_last-append, build_export_levels, grow_levels-eq-tower, reduce_level-eq-peak,
  export_merkle_root, first_node,
}
use tc_ledger.Merkle.Proof.{export_merkle_proof, verify_export_merkle_proof}
use tc_ledger.Merkle.Steps.{
  proof_steps-eq-path, climb-eq-fold_path, path-IsStep, tower-IsHash, join-IsHash, IsStep,
}

module _ (sha : Sha256) where
  abbrev pub leaves : List Bytes → List Bytes
  leaves = map (export_leaf_hash sha)

  abbrev pub levels_of : List Bytes → List (List Bytes)
  levels_of lines = tower (node sha) (length lines) (leaves lines)

  abbrev pub path_of : List Bytes → ℕ → List (Bytes × Str)
  path_of lines i = path (levels_of lines) i

  pub leaves-IsHash : (lines : List Bytes) → All IsHash (leaves lines)
  leaves-IsHash lines = All-map (export_leaf_hash sha) IsHash (export_leaf_hash-IsHash sha) lines

  -- The root is where the path from any leaf leads.
  pub export_merkle_root-eq-fold_path :
      (lines : List Bytes) (i : ℕ) (line : Bytes)
      → get_elem? lines i ≡ some line
      → export_merkle_root sha lines
        ≡ ok (fold_path (node sha) (export_leaf_hash sha line) (path_of lines i))
  unfolding export_merkle_root first_node
  export_merkle_root-eq-fold_path [] i line e = cc
  export_merkle_root-eq-fold_path (l ∷ lines) i line e =
      let size = length-map (export_leaf_hash sha) (l ∷ lines) in
      rw (
        reduce_level-eq-peak sha (suc (length lines)) (leaves (l ∷ lines))
            (leaves-IsHash (l ∷ lines)) (omega (arith, size)) (omega (arith, size)),
        fold-path (node sha) (suc (length lines)) (leaves (l ∷ lines)) i (export_leaf_hash sha line)
            (omega (arith, size)) (get_elem?-map (export_leaf_hash sha) (l ∷ lines) i line e),
      )

  pub export_merkle_proof-eq-path_of :
      (lines : List Bytes) (i : ℕ)
      → i < length lines
      → export_merkle_proof sha lines (pos i) ≡ ok (path_of lines i)
  unfolding export_merkle_proof build_export_levels
  export_merkle_proof-eq-path_of [] i h = elim h [ ]
  export_merkle_proof-eq-path_of (l ∷ lines) i h =
      let size = length-map (export_leaf_hash sha) (l ∷ lines) in
      let inside : leb (length (l ∷ lines)) i ≡ false = ground arith in
      rw
        (
          inside,
          grow_levels-eq-tower sha (suc (length lines)) (leaves (l ∷ lines))
              (leaves-IsHash (l ∷ lines)) (omega (arith, size)) (omega (arith, size)),
          drop_last-append,
        )
        (proof_steps-eq-path sha (suc (length lines)) (leaves (l ∷ lines)) i (omega (arith, size))
          (omega (arith, size)))

  pub path_of-IsStep : (lines : List Bytes) (i : ℕ) → All IsStep (path_of lines i)
  path_of-IsStep lines i =
      path-IsStep sha (levels_of lines) i
        (tower-IsHash sha (length lines) (leaves lines) (leaves-IsHash lines))

  pub fold_path-IsHash :
      (a : Bytes) (p : List (Bytes × Str)) → IsHash a → IsHash (fold_path (node sha) a p)
  unfolding fold_path
  fold_path-IsHash a [] h = h
  fold_path-IsHash a ((b, position) ∷ p) h =
      fold_path-IsHash (join (node sha) b position a) p (join-IsHash sha a b position)

  -- A proof of hashes at known positions is accepted exactly if it leads from the leaf to the root.
  pub verify_export_merkle_proof-eq-same :
      (line : Bytes) (proof : List (Bytes × Str)) (root : Bytes)
      → IsHash root
      → All IsStep proof
      → verify_export_merkle_proof sha line proof root
        ≡ ok (same (fold_path (node sha) (export_leaf_hash sha line) proof) root)
  unfolding verify_export_merkle_proof
  verify_export_merkle_proof-eq-same line proof root h s =
      let size : (length root == 32) ≡ true = ground arith in
      rw (
        size,
        climb-eq-fold_path sha (export_leaf_hash sha line) proof (export_leaf_hash-IsHash sha line)
            s,
      )

  -- The proof that `export_merkle_proof` makes for a line of an export is accepted for that line
  -- under the export's root; neither function raises.
  pub verify-export_merkle_proof :
      (lines : List Bytes) (i : ℕ) (line : Bytes)
      → get_elem? lines i ≡ some line
      → (do
        proof ← export_merkle_proof sha lines (pos i)
        root ← export_merkle_root sha lines
        verify_export_merkle_proof sha line proof root)
        ≡ ok true
  verify-export_merkle_proof lines i line e =
      let leaf = export_leaf_hash sha line in
      rw (
        export_merkle_proof-eq-path_of lines i (get_elem?-some lines i line e),
        export_merkle_root-eq-fold_path lines i line e,
        verify_export_merkle_proof-eq-same line (path_of lines i)
            (fold_path (node sha) leaf (path_of lines i))
            (fold_path-IsHash leaf (path_of lines i) (export_leaf_hash-IsHash sha line))
            (path_of-IsStep lines i),
        same_refl (fold_path (node sha) leaf (path_of lines i)),
      )
