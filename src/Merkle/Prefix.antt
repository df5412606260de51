-- ===== src/Merkle/Prefix.antt =====
-- Consistency proofs of src/tc_ledger/ledger.py: the proof that is generated for a prefix of an
-- export is accepted.
use tc_ledger.Prelude.{
  ℕ, zero, suc, ◌-◌, ◌/◌, ◌≤◌, ◌<◌, ◌≡◌, inl, inr, refl, ap, Bool, ◌&&◌, Bool-cases, Option-cases,
  parity, true, List, [], ◌∷◌, ◌++◌, ◌==◌, ==→eq, map, length, length-map, take, All, All-get_elem?,
  get_elem?, arith,
}
use tc_ledger.Py.Result.{ok, ◌>>=◌}
use tc_ledger.Py.Int.{pos}
use tc_ledger.Py.Str.{raw, Str, Bytes}
use tc_ledger.Merkle.Hash.{Sha256, IsHash, node, export_leaf_hash}
use tc_ledger.Merkle.Tree.{pairs, peak, path, tower, length-pairs}
use tc_ledger.Merkle.Levels.{pairs-IsHash, export_merkle_root}
use tc_ledger.Merkle.Inclusion.{leaves, leaves-IsHash}
use tc_ledger.Merkle.Steps.{IsStep, path-IsStep, tower-IsHash}
use tc_ledger.Merkle.Split.{full_path, root, root-pairs}
use tc_ledger.Merkle.Audit.{nodes, element, to_list, audit, audit_odd, audit-even, audit-odd}
use tc_ledger.Merkle.Consistency.{
  to_hash, to_hashes, consistency_proof, verify_consistency_hashes, verify_consistency_proof,
}
use tc_ledger.Merkle.Generator.{
  tree_root, export_merkle_root-eq-tree_root, consistency_proof-eq-audit,
}
use tc_ledger.Merkle.Extension.{verify_empty, verify_equal, proof_trivial, verify-audit}

take_all : {A : Type 0} (n : ℕ) (l : List A) → n ≡ length l → take n l ≡ l
take_all zero [] h = refl
take_all zero (x ∷ l) h = absurd (omega arith)
take_all (suc n) [] h = absurd (omega arith)
take_all (suc n) (x ∷ l) h = ap (λ t. x ∷ t) (take_all n l (omega arith))

to_hash-raw : (b : Bytes) → IsHash b → to_hash (raw b) ≡ ok b
unfolding to_hash
to_hash-raw b h = ground arith

to_hashes-raw : (l : List Bytes) → All IsHash l → to_hashes (map raw l) ≡ ok l
unfolding to_hashes
to_hashes-raw [] h = refl
to_hashes-raw (b ∷ l) h = rw (to_hash-raw b h.0, to_hashes-raw l h.1)

module _ (sha : Sha256) where
  root_nil : tree_root sha [] ≡ sha.digest []
  root_nil = unfold root peak in refl

  root-IsHash :
      (f : ℕ) (l : List Bytes)
      → All IsHash l
      → 0 < length l
      → length l ≤ f
      → IsHash (tree_root sha l)
  root-IsHash zero l h p q = absurd (omega arith)
  root-IsHash (suc f) [] h p q = elim p [ ]
  root-IsHash (suc f) (a ∷ []) h p q = unfold root peak in h.0
  root-IsHash (suc f) (a ∷ b ∷ l) h p q =
      let size = length-pairs (node sha) (a ∷ b ∷ l) in
      rw (← root-pairs (node sha) (sha.digest []) (a ∷ b ∷ l)) (
        root-IsHash f (pairs (node sha) (a ∷ b ∷ l)) (pairs-IsHash sha (a ∷ b ∷ l) h) (omega arith)
          (omega arith))

  pub tree_root-IsHash : (lines : List Bytes) → IsHash (tree_root sha (leaves sha lines))
  tree_root-IsHash [] = rw root_nil (sha.digest_length [])
  tree_root-IsHash (line ∷ lines) =
      root-IsHash (suc (length lines)) (leaves sha (line ∷ lines))
        (leaves-IsHash sha (line ∷ lines)) (omega arith)
        (omega (arith, length-map (export_leaf_hash sha) lines))

  nodes-IsHash : (p : List (Bytes × Str)) → All IsStep p → All IsHash (nodes p)
  nodes-IsHash [] h = tt
  nodes-IsHash (s ∷ p) h = (h.0.0, nodes-IsHash p h.1)

  All-append : (p q : List Bytes) → All IsHash p → All IsHash q → All IsHash (p ++ q)
  All-append [] q hp hq = hq
  All-append (b ∷ p) q hp hq = (hp.0, All-append p q hp.1 hq)

  element-IsHash : (l : List Bytes) (i : ℕ) → All IsHash l → All IsHash (element l i)
  element-IsHash l i h = elim (Option-cases (get_elem? l i)) [
    | inl missing ↦ rw missing (unfold to_list in tt)
    | inr (a, found) ↦ rw found (unfold to_list in (All-get_elem? IsHash l i a h found, tt))
  ]

  audit_odd-IsHash :
      (i : ℕ) (l : List Bytes) (known : Bool)
      → All IsHash l
      → All IsHash (audit_odd (node sha) i l known)
  unfolding audit_odd full_path
  audit_odd-IsHash i l known h =
      let siblings =
        nodes-IsHash (path (tower (node sha) (length l) l) i)
          (path-IsStep sha (tower (node sha) (length l) l) i (tower-IsHash sha (length l) l h)) in
      elim (Bool-cases (known && i == 0)) [
        | inl skip ↦ rw skip siblings
        | inr keep ↦ rw keep (
            All-append (element l i) (nodes (path (tower (node sha) (length l) l) i))
              (element-IsHash l i h) siblings)
      ]

  audit-IsHash :
      (f m : ℕ) (l : List Bytes) (known : Bool)
      → All IsHash l
      → All IsHash (audit (node sha) f m l known)
  audit-IsHash zero m l known h = unfold audit in tt
  audit-IsHash (suc f) m l known h = elim (parity m) [
    | inl even ↦
        rw (audit-even (node sha) f m l known even)
          (audit-IsHash f (m / 2) (pairs (node sha) l) known (pairs-IsHash sha l h))
    | inr odd ↦ rw (audit-odd (node sha) f m l known odd) (audit_odd-IsHash (m - 1) l known h)
  ]

  -- The three cases of a prefix.
  pub accepted :
      (m : ℕ) (lines : List Bytes)
      → m ≤ length lines
      → (proof : List Bytes) × (consistency_proof sha (pos m) lines ≡ ok proof)
        × All IsHash proof
        × (verify_consistency_hashes sha
              (pos m)
              (pos (length lines))
              (tree_root sha (leaves sha (take m lines)))
              (tree_root sha (leaves sha lines))
              proof
            ≡ ok true)
  accepted m lines h = elim (Bool-cases (m == length lines)) [
    | inl whole ↦
        let size = ==→eq m (length lines) whole in
        (
          [],
          proof_trivial sha m lines h (ground arith),
          tt,
          rw (take_all m lines size)
              (rw size (verify_equal sha (length lines) (tree_root sha (leaves sha lines)))),
        )
    | inr part ↦ elim (Bool-cases (m == 0)) [
      | inl empty ↦
          let size = ==→eq m 0 empty in
          (
            [],
            proof_trivial sha m lines h (ground arith),
            tt,
            rw size (
                rw root_nil (
                  verify_empty sha (length lines) (tree_root sha (leaves sha lines))
                    (ground arith))),
          )
      | inr proper ↦ (
        audit (node sha) (suc (m - 1)) m (leaves sha lines) true,
        consistency_proof-eq-audit sha (suc (m - 1)) m lines (ground arith) (ground arith)
            (omega arith),
        audit-IsHash (suc (m - 1)) m (leaves sha lines) true (leaves-IsHash sha lines),
        verify-audit sha m lines (ground arith) (ground arith),
      )
    ]
  ]

  -- For every prefix of an export, the proof that `consistency_proof` makes is accepted by
  -- `verify_consistency_proof` under the roots of the prefix and of the export; none of the
  -- functions raises.
  pub verify-consistency_proof :
      (m : ℕ) (lines : List Bytes)
      → m ≤ length lines
      → (do
        proof ← consistency_proof sha (pos m) lines
        old_root ← export_merkle_root sha (take m lines)
        new_root ← export_merkle_root sha lines
        verify_consistency_proof sha
            (pos m)
            (pos (length lines))
            (raw old_root)
            (raw new_root)
            (map raw proof))
        ≡ ok true
  unfolding verify_consistency_proof
  verify-consistency_proof m lines h =
      let (proof, made, hashes, checked) = accepted m lines h in
      rw
        (
          made,
          export_merkle_root-eq-tree_root sha (take m lines),
          export_merkle_root-eq-tree_root sha lines,
          to_hash-raw (tree_root sha (leaves sha (take m lines))) (tree_root-IsHash (take m lines)),
          to_hash-raw (tree_root sha (leaves sha lines)) (tree_root-IsHash lines),
          to_hashes-raw proof hashes,
        )
        checked
