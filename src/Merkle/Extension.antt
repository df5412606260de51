-- ===== src/Merkle/Extension.antt =====
-- `verify_consistency_proof` of src/tc_ledger/ledger.py on the proof that `consistency_proof` makes:
-- the cases of an empty, a proper and a whole prefix.
use Prim.Native.Nat.{bit_and}
use tc_ledger.Prelude.{
  ℕ, zero, suc, ◌-◌, ◌≤◌, ◌<◌, ◌≡◌, inl, inr, refl, sym, ◌∙◌, ap, Bool-cases, true, false, ◌||◌,
  some, List, [], ◌∷◌, ◌++◌, ◌==◌, ==→eq, ==_refl, ltb, length, length-map, take, get_elem?,
  get_elem?-lt, All-get_elem?, arith,
}
use tc_ledger.Py.Result.{ok}
use tc_ledger.Py.Int.{pos}
use tc_ledger.Py.Str.{Bytes, same_refl}
use tc_ledger.Merkle.Hash.{Sha256, IsHash, node, export_leaf_hash}
use tc_ledger.Merkle.Tree.{pairs, peak}
use tc_ledger.Merkle.Inclusion.{leaves, leaves-IsHash}
use tc_ledger.Merkle.Split.{full_path, full_path_step, root}
use tc_ledger.Merkle.Audit.{nodes, audit, audit_odd, to_list}
use tc_ledger.Merkle.Consistency.{consistency_proof, check_consistency, verify_consistency_hashes}
use tc_ledger.Merkle.Generator.{tree_root}
use tc_ledger.Merkle.Rounds.{sibling_even}
use tc_ledger.Merkle.Follow.{consistency_steps-eq-roots}
use tc_ledger.Merkle.Start.{Start, start}

module _ (sha : Sha256) where
  root_one : (a : Bytes) → tree_root sha (a ∷ []) ≡ a
  root_one a = unfold root peak in refl

  -- From a start, the loop over the rest of the proof ends at the two roots.
  check_consistency-Start :
      (m n : ℕ) (l : List Bytes) (s : Start sha (m - 1) m l) (first : Bytes)
      → n ≡ length l
      → first ≡ s.final
      → check_consistency sha m n
          (tree_root sha (take m l))
          (tree_root sha l)
          first
          first
          (nodes (full_path (node sha) s.level s.index))
        ≡ ok true
  unfolding check_consistency
  check_consistency-Start m n l s first size e =
      let reached =
        consistency_steps-eq-roots sha (length s.level) s.level s.index s.final s.final
          (omega arith) s.hashes (All-get_elem? IsHash s.level s.index s.final s.hashes s.at_index)
          s.at_index (omega (arith, s.inside)) in
      rw (
        e,
        size,
        s.shifted,
        reached,
        s.old_root,
        s.new_root,
        same_refl (tree_root sha (take m l)),
        same_refl (tree_root sha l),
      )

  audit_zero :
      (level : List Bytes) (i : ℕ)
      → (i == 0) ≡ true
      → audit_odd (node sha) i level true ≡ nodes (full_path (node sha) level i)
  unfolding audit_odd
  audit_zero level i h = rw h

  root_first :
      (level : List Bytes) (i : ℕ) (a : Bytes)
      → (i == 0) ≡ true
      → tree_root sha (take i level ++ a ∷ []) ≡ a
  root_first level i a h = let zero_index = ==→eq i 0 h in rw zero_index (root_one a)

  audit_later :
      (level : List Bytes) (i : ℕ) (a : Bytes)
      → (i == 0) ≡ false
      → get_elem? level i ≡ some a
      → audit_odd (node sha) i level true ≡ a ∷ nodes (full_path (node sha) level i)
  unfolding audit_odd to_list
  audit_later level i a h e = rw (h, e)

  first_sibling :
      (level : List Bytes)
      → 1 < length level
      → (a : Bytes) × (rest : List Bytes) × (nodes (full_path (node sha) level 0) ≡ a ∷ rest)
  first_sibling level h =
      let (b, e) = get_elem?-lt level 1 h in
      (
        b,
        nodes (full_path (node sha) (pairs (node sha) level) 0),
        rw (full_path_step (node sha) level 0 (omega arith), sibling_even level 0 b refl e),
      )

  full_path_zero :
      (level : List Bytes) (i : ℕ)
      → (i == 0) ≡ true
      → suc i < length level
      → (a : Bytes) × (rest : List Bytes) × (nodes (full_path (node sha) level i) ≡ a ∷ rest)
  full_path_zero level i z h =
      let zero_index = ==→eq i 0 z in rw zero_index (first_sibling level (omega arith))

  -- The verifier's choice of the first two nodes.
  verify_known :
      (m n : ℕ) (old new : Bytes) (proof : List Bytes) (b : Bytes) (rest : List Bytes)
      → proof ≡ b ∷ rest
      → 0 < m
      → m < n
      → (bit_and m (m - 1) == 0) ≡ true
      → verify_consistency_hashes sha (pos m) (pos n) old new proof
        ≡ check_consistency sha m n old new old old proof
  unfolding verify_consistency_hashes
  verify_known m n old new proof b rest e p q h =
      let smaller : ltb n m ≡ false = ground arith in
      let different : (m == n) ≡ false = ground arith in
      let positive : (m == 0) ≡ false = ground arith in rw e (rw (smaller, different, positive, h))

  verify_given :
      (m n : ℕ) (old new a : Bytes) (rest : List Bytes)
      → 0 < m
      → m < n
      → (bit_and m (m - 1) == 0) ≡ false
      → verify_consistency_hashes sha (pos m) (pos n) old new (a ∷ rest)
        ≡ check_consistency sha m n old new a a rest
  unfolding verify_consistency_hashes
  verify_given m n old new a rest p q h =
      let smaller : ltb n m ≡ false = ground arith in
      let different : (m == n) ≡ false = ground arith in
      let positive : (m == 0) ≡ false = ground arith in rw (smaller, different, positive, h)

  verify-Start :
      (m n : ℕ) (l : List Bytes) (s : Start sha (m - 1) m l)
      → n ≡ length l
      → 0 < m
      → m < n
      → verify_consistency_hashes sha
          (pos m)
          (pos n)
          (tree_root sha (take m l))
          (tree_root sha l)
          (audit_odd (node sha) s.index s.level true)
        ≡ ok true
  verify-Start m n l s size p q = elim (Bool-cases (s.index == 0)) [
    | inl first ↦
        let (b, rest, e) = full_path_zero s.level s.index first s.inside in
        let known = sym s.old_root ∙ root_first s.level s.index s.final first in
        rw (audit_zero s.level s.index first) (
          verify_known m n (tree_root sha (take m l)) (tree_root sha l)
            (nodes (full_path (node sha) s.level s.index)) b rest e p q (s.single ∙ first)
          ∙ check_consistency-Start m n l s (tree_root sha (take m l)) size known)
    | inr later ↦ rw (audit_later s.level s.index s.final later s.at_index) (
        verify_given m n (tree_root sha (take m l)) (tree_root sha l) s.final
          (nodes (full_path (node sha) s.level s.index)) p q (s.single ∙ later)
        ∙ check_consistency-Start m n l s s.final size refl)
  ]

  leaves-take : (m : ℕ) (lines : List Bytes) → leaves sha (take m lines) ≡ take m (leaves sha lines)
  leaves-take zero lines = refl
  leaves-take (suc m) [] = refl
  leaves-take (suc m) (line ∷ lines) = ap (λ t. export_leaf_hash sha line ∷ t) (leaves-take m lines)

  pub verify_empty :
      (n : ℕ) (new : Bytes)
      → 0 < n
      → verify_consistency_hashes sha (pos 0) (pos n) (sha.digest []) new [] ≡ ok true
  unfolding verify_consistency_hashes
  verify_empty n new h =
      let different : (0 == n) ≡ false = ground arith in
      let smaller : ltb n 0 ≡ false = ground arith in
      rw (smaller, different, same_refl (sha.digest []))

  pub verify_equal :
      (n : ℕ) (r : Bytes) → verify_consistency_hashes sha (pos n) (pos n) r r [] ≡ ok true
  unfolding verify_consistency_hashes
  verify_equal n r =
      let smaller : ltb n n ≡ false = ground arith in rw (smaller, ==_refl n, same_refl r)

  pub proof_trivial :
      (m : ℕ) (lines : List Bytes)
      → m ≤ length lines
      → (m == 0 || m == length lines) ≡ true
      → consistency_proof sha (pos m) lines ≡ ok []
  unfolding consistency_proof
  proof_trivial m lines h t =
      let inside : ltb (length lines) m ≡ false = ground arith in rw (inside, t)

  -- With the proof and the roots as functions of the leaves.
  pub verify-audit :
      (m : ℕ) (lines : List Bytes)
      → 0 < m
      → m < length lines
      → verify_consistency_hashes sha
          (pos m)
          (pos (length lines))
          (tree_root sha (leaves sha (take m lines)))
          (tree_root sha (leaves sha lines))
          (audit (node sha) (suc (m - 1)) m (leaves sha lines) true)
        ≡ ok true
  verify-audit m lines p q =
      let size = length-map (export_leaf_hash sha) lines in
      let s =
        start sha (m - 1) m (leaves sha lines) (leaves-IsHash sha lines) p (omega arith)
          (omega (arith, size)) in
      rw (leaves-take m lines, s.proof)
        (verify-Start m (length lines) (leaves sha lines) s (sym size) p q)
