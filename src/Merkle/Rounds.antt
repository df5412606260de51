-- ===== src/Merkle/Rounds.antt =====
-- One round of the verifier's loop over a consistency proof, against one level of the two trees.
use tc_ledger.Prelude.{
  ℕ, zero, suc, ◌+◌, ◌-◌, ◌/◌, ◌%◌, ◌≤◌, ◌<◌, ◌≡◌, inl, inr, refl, ◌∙◌, ap, Bool-cases, parity,
  true, not, some, List, [], ◌∷◌, ◌++◌, ◌==◌, ltb, ltb→lt, ltb→le, if◌then◌else◌, ◌&&◌, length,
  take, get_elem?, get_elem?-lt, get_elem?-ge, arith,
}
use tc_ledger.Merkle.Tree.{left_str, right_str, pairs, sibling, fold_path, get-pairs, length-pairs}
use tc_ledger.Merkle.Split.{full_path, full_path_step}
use tc_ledger.Merkle.Audit.{nodes}
use tc_ledger.Merkle.Consistency.{shift_while_even}

-- More fuel than the index does not change the shift.
shift_while_even_enough :
    (f g i s : ℕ) → i ≤ f → i ≤ g → shift_while_even f i s ≡ shift_while_even g i s
unfolding shift_while_even
shift_while_even_enough zero zero i s p q = refl
shift_while_even_enough zero (suc g) zero s p q = refl
shift_while_even_enough zero (suc g) (suc i) s p q = absurd (omega arith)
shift_while_even_enough (suc f) zero zero s p q = refl
shift_while_even_enough (suc f) zero (suc i) s p q = absurd (omega arith)
shift_while_even_enough (suc f) (suc g) zero s p q = refl
shift_while_even_enough (suc f) (suc g) (suc i) s p q =
    ap (λ t. if suc i % 2 == 0 && not (suc i == 0) then t else (suc i, s))
      (shift_while_even_enough f g (suc i / 2) (s / 2) (omega arith) (omega arith))

pub shift_while_even_odd : (f i s : ℕ) → i % 2 ≡ 1 → shift_while_even f i s ≡ (i, s)
unfolding shift_while_even
shift_while_even_odd zero i s h = refl
shift_while_even_odd (suc f) i s h = ground arith

shift_while_even_once :
    (i s : ℕ)
    → suc i % 2 ≡ 0
    → shift_while_even (suc i) (suc i) s ≡ shift_while_even i (suc i / 2) (s / 2)
unfolding shift_while_even
shift_while_even_once i s h =
    let even : (suc i % 2 == 0 && not (suc i == 0)) ≡ true = ground arith in rw even

pub shift_while_even_step :
    (i s : ℕ)
    → 0 < i
    → i % 2 ≡ 0
    → shift_while_even i i s ≡ shift_while_even (i / 2) (i / 2) (s / 2)
shift_while_even_step zero s p h = elim p [ ]
shift_while_even_step (suc i) s p h =
    shift_while_even_once i s h
    ∙ shift_while_even_enough i (suc i / 2) (suc i / 2) (s / 2) (omega arith) (omega arith)

pub sibling_odd :
    {A : Type 0} (l : List A) (i : ℕ) (b : A)
    → i % 2 ≡ 1
    → get_elem? l (i - 1) ≡ some b
    → sibling l i ≡ (b, left_str) ∷ []
unfolding sibling
sibling_odd l i b h e = ground arith

pub sibling_even :
    {A : Type 0} (l : List A) (i : ℕ) (b : A)
    → i % 2 ≡ 0
    → get_elem? l (i + 1) ≡ some b
    → sibling l i ≡ (b, right_str) ∷ []
unfolding sibling
sibling_even l i b h e = ground arith

pub sibling_final :
    {A : Type 0} (l : List A) (i : ℕ) → i % 2 ≡ 0 → length l ≤ i + 1 → sibling l i ≡ []
unfolding sibling
sibling_final l i h e = ground (arith, get_elem?-ge l (i + 1) e)

module _ {A : Type 0} (node : A → A → A) where
  pub get-pairs_odd :
      (l : List A) (i : ℕ) (b a : A)
      → i % 2 ≡ 1
      → get_elem? l (i - 1) ≡ some b
      → get_elem? l i ≡ some a
      → get_elem? (pairs node l) (i / 2) ≡ some (node b a)
  get-pairs_odd l i b a h e p =
      unfold fold_path in rw (sibling_odd l i b h e) at (get-pairs node l i a p)

  pub get-pairs_even :
      (l : List A) (i : ℕ) (a b : A)
      → i % 2 ≡ 0
      → get_elem? l i ≡ some a
      → get_elem? l (i + 1) ≡ some b
      → get_elem? (pairs node l) (i / 2) ≡ some (node a b)
  get-pairs_even l i a b h p e =
      unfold fold_path in rw (sibling_even l i b h e) at (get-pairs node l i a p)

  pub get-pairs_final :
      (l : List A) (i : ℕ) (a : A)
      → i % 2 ≡ 0
      → length l ≤ i + 1
      → get_elem? l i ≡ some a
      → get_elem? (pairs node l) (i / 2) ≡ some a
  get-pairs_final l i a h e p =
      unfold fold_path in rw (sibling_final l i h e) at (get-pairs node l i a p)

  pub pairs_prefix_odd :
      (l : List A) (j : ℕ) (b a : A)
      → j % 2 ≡ 0
      → get_elem? l j ≡ some b
      → pairs node (take (suc j) l ++ a ∷ []) ≡ take (suc j / 2) (pairs node l) ++ node b a ∷ []
  unfolding pairs
  pairs_prefix_odd [] j b a h e = cc
  pairs_prefix_odd (x ∷ l) zero b a h e = cc
  pairs_prefix_odd (x ∷ l) (suc zero) b a h e = absurd (omega arith)
  pairs_prefix_odd (x ∷ []) (suc (suc j)) b a h e = cc
  pairs_prefix_odd (x ∷ y ∷ l) (suc (suc j)) b a h e =
      let half : suc (suc (suc j)) / 2 ≡ suc (suc j / 2) = omega arith in
      rw half (ap (λ t. node x y ∷ t) (pairs_prefix_odd l j b a (omega arith) e))

  pub pairs_prefix_even :
      (l : List A) (i : ℕ) (a : A)
      → i % 2 ≡ 0
      → i ≤ length l
      → pairs node (take i l ++ a ∷ []) ≡ take (i / 2) (pairs node l) ++ a ∷ []
  unfolding pairs
  pairs_prefix_even l zero a h p = refl
  pairs_prefix_even l (suc zero) a h p = absurd (omega arith)
  pairs_prefix_even [] (suc (suc i)) a h p = elim p [ ]
  pairs_prefix_even (x ∷ []) (suc (suc i)) a h p = absurd (omega arith)
  pairs_prefix_even (x ∷ y ∷ l) (suc (suc i)) a h p =
      let half : suc (suc i) / 2 ≡ suc (i / 2) = omega arith in
      rw half (ap (λ t. node x y ∷ t) (pairs_prefix_even l i a (omega arith) (omega arith)))

  -- Every path from an index above zero has a step.
  pub full_path_nonempty :
      (f : ℕ) (l : List A) (i : ℕ)
      → length l ≤ f
      → 0 < i
      → i < length l
      → (a : A) × (rest : List A) × (nodes (full_path node l i) ≡ a ∷ rest)
  full_path_nonempty zero l i h p q = absurd (omega arith)
  full_path_nonempty (suc f) l i h p q = elim (parity i) [
    | inr odd ↦
        let (b, e) = get_elem?-lt l (i - 1) (omega arith) in
        (
          b,
          nodes (full_path node (pairs node l) (i / 2)),
          rw (full_path_step node l i q, sibling_odd l i b odd e),
        )
    | inl even ↦ elim (Bool-cases (ltb (i + 1) (length l))) [
      | inl more ↦
          let (b, e) = get_elem?-lt l (i + 1) (ltb→lt _ _ more) in
          (
            b,
            nodes (full_path node (pairs node l) (i / 2)),
            rw (full_path_step node l i q, sibling_even l i b even e),
          )
      | inr final ↦
          let size = length-pairs node l in
          let (a, rest, e) =
            full_path_nonempty f (pairs node l) (i / 2) (omega arith) (omega arith) (omega arith) in
          (a, rest, rw (full_path_step node l i q, sibling_final l i even (ltb→le _ _ final)) e)
    ]
  ]
