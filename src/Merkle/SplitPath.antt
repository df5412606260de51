-- ===== src/Merkle/SplitPath.antt =====
-- The path of an element of the first or of the second part of a list, as `Split` divides it.
use mathlib.Core.List.{append_assoc}
use native.Mathlib.Nat.{pow-succ'}
use tc_ledger.Prelude.{
  ℕ, zero, suc, ◌+◌, ◌*◌, ◌/◌, ◌^◌, ◌≤◌, ◌<◌, ◌≡◌, refl, sym, ◌∙◌, List, [], ◌∷◌, ◌++◌, length,
  length-append, arith,
}
use tc_ledger.Merkle.Tree.{left_str, right_str, pairs, tower, peak, sibling, path, length-pairs}
use tc_ledger.Merkle.Split.{
  sibling-append_left, sibling-append_right, pairs-append, full_path, full_path_step, root,
  root-pairs,
}

module _ {A : Type 0} (node : A → A → A) (empty : A) where
  pub full_path-append_left :
      (j : ℕ) (l m : List A) (i : ℕ)
      → length l ≡ 2 ^ j
      → 0 < length m
      → length m ≤ 2 ^ j
      → i < length l
      → full_path node (l ++ m) i ≡ full_path node l i ++ (root node empty m, right_str) ∷ []
  full_path-append_left zero (a ∷ []) (b ∷ []) zero e p q h =
      unfold full_path tower path sibling root peak pairs in refl
  full_path-append_left zero (a ∷ []) (b ∷ []) (suc i) e p q h = absurd (omega arith)
  full_path-append_left zero [] m i e p q h = elim h [ ]
  full_path-append_left zero (a ∷ c ∷ l) m i e p q h = absurd (omega arith)
  full_path-append_left zero (a ∷ []) [] i e p q h = elim p [ ]
  full_path-append_left zero (a ∷ []) (b ∷ d ∷ m) i e p q h = absurd (omega arith)
  full_path-append_left (suc j) l m i e p q h =
      let double : 2 ^ suc j ≡ 2 * 2 ^ j = pow-succ' 2 j in
      let even : length l ≡ 2 * 2 ^ j = e ∙ double in
      let size_l = length-pairs node l in
      let size_m = length-pairs node m in
      rw
        (
          full_path_step node (l ++ m) i (omega (arith, length-append l m)),
          full_path_step node l i h,
          sibling-append_left l m i (2 ^ j) even h,
          pairs-append node (2 ^ j) l m even,
          full_path-append_left j (pairs node l) (pairs node m) (i / 2) (omega arith) (omega arith)
              (omega arith) (omega arith),
          root-pairs node empty m,
        )
        (sym (
          append_assoc (sibling l i) (full_path node (pairs node l) (i / 2))
            ((root node empty m, right_str) ∷ [])))

  pub full_path-append_right :
      (j : ℕ) (l m : List A) (i : ℕ)
      → length l ≡ 2 ^ j
      → 0 < length m
      → length m ≤ 2 ^ j
      → i < length m
      → full_path node (l ++ m) (2 ^ j + i)
        ≡ full_path node m i ++ (root node empty l, left_str) ∷ []
  full_path-append_right zero (a ∷ []) (b ∷ []) zero e p q h =
      unfold full_path tower path sibling root peak pairs in refl
  full_path-append_right zero (a ∷ []) (b ∷ []) (suc i) e p q h = absurd (omega arith)
  full_path-append_right zero [] m i e p q h = absurd (omega arith)
  full_path-append_right zero (a ∷ c ∷ l) m i e p q h = absurd (omega arith)
  full_path-append_right zero (a ∷ []) [] i e p q h = elim p [ ]
  full_path-append_right zero (a ∷ []) (b ∷ d ∷ m) i e p q h = absurd (omega arith)
  full_path-append_right (suc j) l m i e p q h =
      let double : 2 ^ suc j ≡ 2 * 2 ^ j = pow-succ' 2 j in
      let even : length l ≡ 2 * 2 ^ j = e ∙ double in
      let size_l = length-pairs node l in
      let size_m = length-pairs node m in
      let halved : (2 ^ suc j + i) / 2 ≡ 2 ^ j + i / 2 = omega arith in
      rw
        (
          full_path_step node (l ++ m) (2 ^ suc j + i) (omega (arith, length-append l m)),
          full_path_step node m i h,
          sibling-append_right l m i (2 ^ suc j + i) (2 ^ j) even (omega arith),
          pairs-append node (2 ^ j) l m even,
          halved,
          full_path-append_right j (pairs node l) (pairs node m) (i / 2) (omega arith) (omega arith)
              (omega arith) (omega arith),
          root-pairs node empty l,
        )
        (sym (
          append_assoc (sibling m i) (full_path node (pairs node m) (i / 2))
            ((root node empty l, left_str) ∷ [])))
