-- ===== src/Merkle/Split.antt =====
-- The recursive view of the trees of `Tree`, as RFC 6962 defines them: a list of more than a power
-- of two elements, and of at most twice as many, has the node of the roots of its two parts.
use native.Mathlib.Nat.{pow-succ'}
use tc_ledger.Prelude.{
  ℕ, zero, suc, ◌+◌, ◌-◌, ◌*◌, ◌/◌, ◌%◌, ◌^◌, ◌≤◌, ◌<◌, ◌≡◌, refl, sym, ◌∙◌, ap, List, [], ◌∷◌,
  ◌++◌, ◌==◌, inl, inr, Bool-cases, length, get_elem?, arith,
}
use tc_ledger.Py.Str.{Str}
use tc_ledger.Merkle.Tree.{pairs, tower, peak, sibling, path, length-pairs, peak_step, tower_step}

module _ {A : Type 0} where
  abbrev pub head_or : A → List A → A
  head_or d [] = d
  head_or d (x ∷ xs) = x

  pub get-append_left : (l m : List A) (i : ℕ) → i < length l → get_elem? (l ++ m) i ≡ get_elem? l i
  get-append_left [] m i h = elim h [ ]
  get-append_left (x ∷ l) m zero h = refl
  get-append_left (x ∷ l) m (suc i) h = get-append_left l m i (omega arith)

  pub get-append_right :
      (l m : List A) (i j : ℕ) → j ≡ length l + i → get_elem? (l ++ m) j ≡ get_elem? m i
  get-append_right [] m i j e = let q : j ≡ i = omega arith in rw q
  get-append_right (x ∷ l) m i zero e = absurd (omega arith)
  get-append_right (x ∷ l) m i (suc j) e = get-append_right l m i j (omega arith)

  pub sibling-append_left :
      (l m : List A) (i h : ℕ) → length l ≡ 2 * h → i < length l → sibling (l ++ m) i ≡ sibling l i
  unfolding sibling
  sibling-append_left l m i h e p = elim (Bool-cases (i % 2 == 0)) [
    | inl even ↦ rw (even, get-append_left l m (i + 1) (ground arith))
    | inr odd ↦ rw (odd, get-append_left l m (i - 1) (omega arith))
  ]

  pub sibling-append_right :
      (l m : List A) (i j h : ℕ)
      → length l ≡ 2 * h
      → j ≡ length l + i
      → sibling (l ++ m) j ≡ sibling m i
  unfolding sibling
  sibling-append_right l m i j h e p = elim (Bool-cases (i % 2 == 0)) [
    | inl even ↦
        let same_parity : j % 2 ≡ i % 2 = omega arith in
        rw (same_parity, even, get-append_right l m (i + 1) (j + 1) (omega arith))
    | inr odd ↦
        let same_parity : j % 2 ≡ i % 2 = omega arith in
        rw (same_parity, odd, get-append_right l m (i - 1) (j - 1) (ground arith))
  ]

module _ {A : Type 0} (node : A → A → A) where
  pub pairs-append :
      (h : ℕ) (l m : List A) → length l ≡ 2 * h → pairs node (l ++ m) ≡ pairs node l ++ pairs node m
  unfolding pairs
  pairs-append zero [] m e = refl
  pairs-append zero (x ∷ l) m e = absurd (omega arith)
  pairs-append (suc h) [] m e = refl
  pairs-append (suc h) (x ∷ []) m e = absurd (omega arith)
  pairs-append (suc h) (x ∷ y ∷ l) m e = ap (λ t. node x y ∷ t) (pairs-append h l m (omega arith))

  -- A list of at most one element is its own top, with no level below.
  pub peak_short : (f : ℕ) (l : List A) → length l ≤ 1 → peak node f l ≡ l
  unfolding peak
  peak_short zero l h = refl
  peak_short (suc f) [] h = refl
  peak_short (suc f) (x ∷ []) h = refl
  peak_short (suc f) (x ∷ y ∷ l) h = absurd (omega arith)

  pub tower_short : (f : ℕ) (l : List A) → length l ≤ 1 → tower node f l ≡ []
  unfolding tower
  tower_short zero l h = refl
  tower_short (suc f) [] h = refl
  tower_short (suc f) (x ∷ []) h = refl
  tower_short (suc f) (x ∷ y ∷ l) h = absurd (omega arith)

  -- The bound does not matter from the length on.
  peak_enough : (f g : ℕ) (l : List A) → length l ≤ f → length l ≤ g → peak node f l ≡ peak node g l
  peak_enough f g [] p q = peak_short f [] (omega arith) ∙ sym (peak_short g [] (omega arith))
  peak_enough f g (x ∷ []) p q =
      peak_short f (x ∷ []) (omega arith) ∙ sym (peak_short g (x ∷ []) (omega arith))
  peak_enough zero g (x ∷ y ∷ l) p q = elim p [ ]
  peak_enough (suc f) zero (x ∷ y ∷ l) p q = elim q [ ]
  peak_enough (suc f) (suc g) (x ∷ y ∷ l) p q =
      let size = length-pairs node (x ∷ y ∷ l) in
      rw (peak_step node f (x ∷ y ∷ l) (omega arith), peak_step node g (x ∷ y ∷ l) (omega arith))
        (peak_enough f g (pairs node (x ∷ y ∷ l)) (omega (arith, size)) (omega (arith, size)))

  tower_enough :
      (f g : ℕ) (l : List A) → length l ≤ f → length l ≤ g → tower node f l ≡ tower node g l
  tower_enough f g [] p q = tower_short f [] (omega arith) ∙ sym (tower_short g [] (omega arith))
  tower_enough f g (x ∷ []) p q =
      tower_short f (x ∷ []) (omega arith) ∙ sym (tower_short g (x ∷ []) (omega arith))
  tower_enough zero g (x ∷ y ∷ l) p q = elim p [ ]
  tower_enough (suc f) zero (x ∷ y ∷ l) p q = elim q [ ]
  tower_enough (suc f) (suc g) (x ∷ y ∷ l) p q =
      let size = length-pairs node (x ∷ y ∷ l) in
      rw (tower_step node f (x ∷ y ∷ l) (omega arith), tower_step node g (x ∷ y ∷ l) (omega arith))
        (ap (λ t. (x ∷ y ∷ l) ∷ t)
          (tower_enough f g (pairs node (x ∷ y ∷ l)) (omega (arith, size)) (omega (arith, size))))

  -- The path from an index of a list to its root.
  unfoldable pub full_path : List A → ℕ → List (A × Str)
  full_path l i = path (tower node (length l) l) i

  pub full_path_step :
      (l : List A) (i : ℕ)
      → i < length l
      → full_path l i ≡ sibling l i ++ full_path (pairs node l) (i / 2)
  unfolding full_path
  full_path_step [] i h = elim h [ ]
  full_path_step (x ∷ []) zero h = unfold tower path sibling pairs in refl
  full_path_step (x ∷ []) (suc i) h = absurd (omega arith)
  full_path_step (x ∷ y ∷ l) i h =
      let size = length-pairs node (x ∷ y ∷ l) in
      rw
        (
          tower_step node (suc (length l)) (x ∷ y ∷ l) (omega arith),
          tower_enough (suc (length l)) (length (pairs node (x ∷ y ∷ l))) (pairs node (x ∷ y ∷ l))
              (omega (arith, size)) (omega arith),
        )
        (unfold path in refl)

  module _ (empty : A) where
    -- The root of a list; `empty` is that of the empty list.
    unfoldable pub root : List A → A
    root l = head_or empty (peak node (length l) l)

    pub root-pairs : (l : List A) → root (pairs node l) ≡ root l
    unfolding root
    root-pairs [] = unfold pairs in refl
    root-pairs (x ∷ []) = unfold pairs in refl
    root-pairs (x ∷ y ∷ l) =
        let size = length-pairs node (x ∷ y ∷ l) in
        ap (head_or empty) (
          peak_enough (length (pairs node (x ∷ y ∷ l))) (suc (length l)) (pairs node (x ∷ y ∷ l))
            (omega arith) (omega (arith, size))
          ∙ sym (peak_step node (suc (length l)) (x ∷ y ∷ l) (omega arith)))

    -- RFC 6962, section 2.1: the root of a list is the node of the roots of its first `2 ^ j`
    -- elements and of the rest, if that has between one and `2 ^ j` elements.
    pub root-append :
        (j : ℕ) (l m : List A)
        → length l ≡ 2 ^ j
        → 0 < length m
        → length m ≤ 2 ^ j
        → root (l ++ m) ≡ node (root l) (root m)
    root-append zero (a ∷ []) (b ∷ []) e p q = unfold root peak pairs in refl
    root-append zero [] m e p q = absurd (omega arith)
    root-append zero (a ∷ c ∷ l) m e p q = absurd (omega arith)
    root-append zero (a ∷ []) [] e p q = elim p [ ]
    root-append zero (a ∷ []) (b ∷ d ∷ m) e p q = absurd (omega arith)
    root-append (suc j) l m e p q =
        let double : 2 ^ suc j ≡ 2 * 2 ^ j = pow-succ' 2 j in
        let even : length l ≡ 2 * 2 ^ j = e ∙ double in
        let size_l = length-pairs node l in
        let size_m = length-pairs node m in
        rw (← root-pairs (l ++ m), ← root-pairs l, ← root-pairs m, pairs-append (2 ^ j) l m even)
          (root-append j (pairs node l) (pairs node m) (omega arith) (omega arith) (omega arith))
