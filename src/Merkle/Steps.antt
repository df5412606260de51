-- ===== src/Merkle/Steps.antt =====
-- The loops of the proof generator and of the verifier follow the paths of `Tree`.
use tc_ledger.Prelude.{
  ℕ, zero, suc, ◌+◌, ◌-◌, ◌/◌, ◌%◌, ◌≤◌, ◌<◌, subst, ◌≡◌, ◌⊎◌, inl, inr, Bool-cases, ltb→lt, ltb→le,
  get_elem?-ge, refl, sym, Option, none, some, List, [], ◌∷◌, ◌++◌, ◌==◌, ltb, map, if◌then◌else◌,
  length, get_elem?, get_elem?-lt, All, All-get_elem?, arith,
}
use tc_ledger.Py.Result.{ok}
use tc_ledger.Py.Str.{Str, Bytes, same}
use tc_ledger.Merkle.Hash.{Sha256, IsHash, node, node_hash-eq-node, node-IsHash}
use tc_ledger.Merkle.Tree.{
  left_str, right_str, pairs, tower, sibling, path, fold_path, join, length-pairs, tower_step,
}
use tc_ledger.Merkle.Levels.{pairs-IsHash}
use tc_ledger.Merkle.Proof.{proof_step, proof_steps, climb_step, climb}

-- The steps of a proof are hashes at known positions.
abbrev pub IsStep : Bytes × Str → Type 0
IsStep s = IsHash s.0 × ((s.1 ≡ left_str) ⊎ (s.1 ≡ right_str))

-- The steps of the code are those of the path.
proof_step-eq-sibling :
    (level : List Bytes) (i : ℕ) → i < length level → proof_step level i ≡ ok (sibling level i)
unfolding proof_step sibling
proof_step-eq-sibling level i h = elim (Bool-cases (i % 2 == 0)) [
  | inl even ↦ elim (Bool-cases (ltb (i + 1) (length level))) [
    | inl more ↦
        let (b, q) = get_elem?-lt level (i + 1) (ltb→lt _ _ more) in ground (arith, even, more, q)
    | inr final ↦ ground (arith, even, final, get_elem?-ge level (i + 1) (ltb→le _ _ final))
  ]
  | inr odd ↦ let (b, q) = get_elem?-lt level (i - 1) (omega arith) in ground (arith, odd, q)
]

pub sibling_directions :
    (level : List Bytes) (i : ℕ)
    → i < length level
    → map (λ s. s.1) (sibling level i) ≡ (
        if i % 2 == 0
        then (if ltb (i + 1) (length level) then right_str ∷ [] else [])
        else left_str ∷ [])
unfolding sibling
sibling_directions level i h = elim (Bool-cases (i % 2 == 0)) [
  | inl even ↦ elim (Bool-cases (ltb (i + 1) (length level))) [
    | inl more ↦
        let (b, q) = get_elem?-lt level (i + 1) (ltb→lt _ _ more) in ground (arith, even, more, q)
    | inr final ↦ ground (arith, even, final, get_elem?-ge level (i + 1) (ltb→le _ _ final))
  ]
  | inr odd ↦ let (b, q) = get_elem?-lt level (i - 1) (omega arith) in ground (arith, odd, q)
]

proof_steps_cons :
    (level : List Bytes) (levels : List (List Bytes)) (i : ℕ)
    → i < length level
    → proof_steps levels (i / 2) ≡ ok (path levels (i / 2))
    → proof_steps (level ∷ levels) i ≡ ok (path (level ∷ levels) i)
unfolding proof_steps path
proof_steps_cons level levels i h e = rw (proof_step-eq-sibling level i h, e)

module _ (sha : Sha256) where
  pub proof_steps-eq-path :
      (f : ℕ) (l : List Bytes) (i : ℕ)
      → length l ≤ f
      → i < length l
      → proof_steps (tower (node sha) f l) i ≡ ok (path (tower (node sha) f l) i)
  proof_steps-eq-path zero l i h p = absurd (omega arith)
  proof_steps-eq-path (suc f) [] i h p = elim p [ ]
  proof_steps-eq-path (suc f) (a ∷ []) i h p = unfold proof_steps tower path in refl
  proof_steps-eq-path (suc f) (a ∷ b ∷ l) i h p =
      rw (tower_step (node sha) f (a ∷ b ∷ l) (omega arith)) (
        proof_steps_cons (a ∷ b ∷ l) (tower (node sha) f (pairs (node sha) (a ∷ b ∷ l))) i p (
          proof_steps-eq-path f (pairs (node sha) (a ∷ b ∷ l)) (i / 2)
            (omega (arith, length-pairs (node sha) (a ∷ b ∷ l)))
            (omega (arith, length-pairs (node sha) (a ∷ b ∷ l)))))

  climb_step-eq-join :
      (a b : Bytes) (position : Str)
      → IsHash a
      → IsStep (b, position)
      → climb_step sha a b position ≡ ok (join (node sha) b position a)
  climb_step-eq-join a b position h (hb, inl q) =
      subst (λ p. climb_step sha a b p ≡ ok (join (node sha) b p a)) (sym q)
        (unfold climb_step in ground (arith, hb, node_hash-eq-node sha b a hb h))
  climb_step-eq-join a b position h (hb, inr q) =
      subst (λ p. climb_step sha a b p ≡ ok (join (node sha) b p a)) (sym q)
        (unfold climb_step in ground (arith, hb, node_hash-eq-node sha a b h hb))

  pub join-IsHash : (a b : Bytes) (position : Str) → IsHash (join (node sha) b position a)
  join-IsHash a b position = elim (Bool-cases (same position left_str)) [
    | inl l ↦ rw l (node-IsHash sha b a)
    | inr r ↦ rw r (node-IsHash sha a b)
  ]

  pub climb-eq-fold_path :
      (a : Bytes) (p : List (Bytes × Str))
      → IsHash a
      → All IsStep p
      → climb sha a p ≡ ok (fold_path (node sha) a p)
  unfolding climb fold_path
  climb-eq-fold_path a [] h s = refl
  climb-eq-fold_path a ((b, position) ∷ p) h (hb, s) =
      rw (climb_step-eq-join a b position h hb)
        (climb-eq-fold_path (join (node sha) b position a) p (join-IsHash a b position) s)

  one-IsStep :
      (o : Option Bytes) (position : Str)
      → ((b : Bytes) → o ≡ some b → IsHash b)
      → (position ≡ left_str) ⊎ (position ≡ right_str)
      → All IsStep (elim o [ some b ↦ (b, position) ∷ [] | none ↦ [] ])
  one-IsStep none position h q = tt
  one-IsStep (some b) position h q = ((h b refl, q), tt)

  sibling-IsStep : (level : List Bytes) (i : ℕ) → All IsHash level → All IsStep (sibling level i)
  unfolding sibling
  sibling-IsStep level i h = elim (Bool-cases (i % 2 == 0)) [
    | inl even ↦ rw even (
        one-IsStep (get_elem? level (i + 1)) right_str (λ b. All-get_elem? IsHash level (i + 1) b h)
          (inr refl))
    | inr odd ↦ rw odd (
        one-IsStep (get_elem? level (i - 1)) left_str (λ b. All-get_elem? IsHash level (i - 1) b h)
          (inl refl))
  ]

  All-append : (p q : List (Bytes × Str)) → All IsStep p → All IsStep q → All IsStep (p ++ q)
  All-append [] q hp hq = hq
  All-append (s ∷ p) q hp hq = (hp.0, All-append p q hp.1 hq)

  pub path-IsStep :
      (levels : List (List Bytes)) (i : ℕ) → All (All IsHash) levels → All IsStep (path levels i)
  unfolding path
  path-IsStep [] i h = tt
  path-IsStep (level ∷ levels) i h =
      All-append (sibling level i) (path levels (i / 2)) (sibling-IsStep level i h.0)
        (path-IsStep levels (i / 2) h.1)

  pub tower-IsHash :
      (f : ℕ) (l : List Bytes) → All IsHash l → All (All IsHash) (tower (node sha) f l)
  unfolding tower
  tower-IsHash zero l h = tt
  tower-IsHash (suc f) l h =
      let rest = tower-IsHash f (pairs (node sha) l) (pairs-IsHash sha l h) in
      elim (Bool-cases (ltb 1 (length l))) [ inl more ↦ rw more (h, rest) | inr done ↦ rw done tt ]
