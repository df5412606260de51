-- ===== src/Merkle/Directions.antt =====
-- `expected_proof_directions` of src/tc_ledger/ledger.py computes the positions of the siblings in
-- the proof of a leaf from the size of the tree and the leaf's index alone.
use mathlib.Core.List.{map-append}
use tc_ledger.Prelude.{
  ℕ, zero, suc, ◌+◌, ◌/◌, ◌%◌, ◌≤◌, ◌<◌, ◌≡◌, refl, inl, inr, Bool-cases, List, [], ◌∷◌, ◌++◌, ◌==◌,
  ltb, lt→ltb, ltb→lt, le→ltb, lt→leb, if◌then◌else◌, map, length, length-map, arith,
}
use tc_ledger.Py.Result.{ok, ◌>>=◌}
use tc_ledger.Py.Int.{ℤ, pos, negsuc}
use tc_ledger.Py.Str.{Str, Bytes}
use tc_ledger.Merkle.Hash.{Sha256, node, export_leaf_hash}
use tc_ledger.Merkle.Tree.{left_str, right_str, pairs, tower, path, length-pairs, tower_step}
use tc_ledger.Merkle.Proof.{direction_steps, expected_proof_directions, export_merkle_proof}
use tc_ledger.Merkle.Steps.{sibling_directions}
use tc_ledger.Merkle.Inclusion.{leaves, path_of, export_merkle_proof-eq-path_of}

abbrev pub positions : List (Bytes × Str) → List Str
positions = map (λ s. s.1)

direction_steps_step :
    (f n i : ℕ) {rest : List Str}
    → 1 < n
    → direction_steps f ((n + 1) / 2) (i / 2) ≡ ok rest
    → direction_steps (suc f) n i
      ≡ ok (
          (if i % 2 == 0 then (if ltb (i + 1) n then right_str ∷ [] else []) else left_str ∷ [])
          ++ rest)
unfolding direction_steps
direction_steps_step f n i p e = rw (lt→ltb 1 n p, e)

positions_cons :
    (l : List Bytes) (ls : List (List Bytes)) (i : ℕ)
    → i < length l
    → positions (path (l ∷ ls) i)
      ≡ (if i % 2 == 0
          then (if ltb (i + 1) (length l) then right_str ∷ [] else [])
          else left_str ∷ [])
        ++ positions (path ls (i / 2))
unfolding path
positions_cons l ls i h = rw (map-append, sibling_directions l i h)

module _ (sha : Sha256) where
  direction_steps-eq-positions :
      (f : ℕ) (l : List Bytes) (i : ℕ)
      → length l ≤ f
      → i < length l
      → direction_steps f (length l) i ≡ ok (positions (path (tower (node sha) f l) i))
  direction_steps-eq-positions zero l i h p = absurd (omega arith)
  direction_steps-eq-positions (suc f) [] i h p = elim p [ ]
  direction_steps-eq-positions (suc f) (a ∷ []) i h p = unfold direction_steps tower path in refl
  direction_steps-eq-positions (suc f) (a ∷ b ∷ l) i h p =
      rw
        (
          tower_step (node sha) f (a ∷ b ∷ l) (omega arith),
          positions_cons (a ∷ b ∷ l) (tower (node sha) f (pairs (node sha) (a ∷ b ∷ l))) i p,
        )
        (direction_steps_step f (length (a ∷ b ∷ l)) i (omega arith) (
          rw (length-pairs (node sha) (a ∷ b ∷ l)) at (
            direction_steps-eq-positions f (pairs (node sha) (a ∷ b ∷ l)) (i / 2)
              (omega (arith, length-pairs (node sha) (a ∷ b ∷ l)))
              (omega (arith, length-pairs (node sha) (a ∷ b ∷ l))))))

  in_leaves :
      (lines : List Bytes) (i : ℕ)
      → i < length lines
      → direction_steps (length lines) (length lines) i ≡ ok (positions (path_of sha lines i))
  in_leaves lines i h =
      let size = length-map (export_leaf_hash sha) lines in
      rw size at (
        direction_steps-eq-positions (length lines) (leaves sha lines) i (omega (arith, size))
          (omega (arith, size)))

  -- In a nonempty export, for every integer index, the positions of the generated proof are the
  -- expected directions; an index out of range is an IndexError in both functions.
  pub expected_proof_directions-eq-positions :
      (lines : List Bytes) (index : ℤ)
      → 0 < length lines
      → expected_proof_directions (pos (length lines)) index
        ≡ (do proof ← export_merkle_proof sha lines index; ok (positions proof))
  unfolding expected_proof_directions
  expected_proof_directions-eq-positions lines (negsuc i) h =
      unfold export_merkle_proof in ground arith
  expected_proof_directions-eq-positions lines (pos i) h =
      elim (Bool-cases (ltb i (length lines))) [
        | inl inside ↦
            rw
              (
                le→ltb (length lines) 1 (omega arith),
                lt→leb i (length lines) (ltb→lt _ _ inside),
                export_merkle_proof-eq-path_of sha lines i (ltb→lt _ _ inside),
              )
              (in_leaves lines i (ltb→lt _ _ inside))
        | inr outside ↦ unfold export_merkle_proof in ground arith
      ]
