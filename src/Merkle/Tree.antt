-- ===== src/Merkle/Tree.antt =====
-- Trees of hashes as lists of levels, over any binary operation: what one round of pairing does,
-- the levels below the top, and the path from an element to the top.
use tc_ledger.Prelude.{
  ℕ, zero, suc, ◌+◌, ◌-◌, ◌/◌, ◌%◌, ◌≤◌, ◌<◌, ◌≡◌, refl, none, some, List, [], ◌∷◌, ◌++◌, ◌==◌, ltb,
  lt→ltb, if◌then◌else◌, length, get_elem?, arith,
}
use tc_ledger.Py.Str.{Str, codes, same}

abbrev pub left_str : Str
left_str = codes "left"

abbrev pub right_str : Str
right_str = codes "right"

module _ {A : Type 0} where
  -- The step of a path from index `i`: its neighbour, or nothing if it is promoted.
  unfoldable pub sibling : List A → ℕ → List (A × Str)
  sibling level i =
      if i % 2 == 0
      then elim (get_elem? level (i + 1)) [ some b ↦ (b, right_str) ∷ [] | none ↦ [] ]
      else elim (get_elem? level (i - 1)) [ some b ↦ (b, left_str) ∷ [] | none ↦ [] ]

  sibling-suc : (a b : A) (l : List A) (i : ℕ) → sibling (a ∷ b ∷ l) (suc (suc i)) ≡ sibling l i
  unfolding sibling
  sibling-suc a b l zero = refl
  sibling-suc a b l (suc i) =
      let e : suc (suc (suc i)) % 2 ≡ suc i % 2 = omega arith in
      let up : suc (suc (suc i)) + 1 ≡ suc (suc (suc i + 1)) = omega arith in
      let down : suc (suc (suc i)) - 1 ≡ suc (suc (suc i - 1)) = omega arith in rw (e, up, down)

  -- The path from index `i` through the levels.
  unfoldable pub path : List (List A) → ℕ → List (A × Str)
  path [] i = []
  path (level ∷ levels) i = sibling level i ++ path levels (i / 2)

module _ {A : Type 0} (node : A → A → A) where
  -- One round: neighbours are joined, and an element left over is promoted.
  unfoldable pub pairs : List A → List A
  pairs [] = []
  pairs (a ∷ []) = a ∷ []
  pairs (a ∷ b ∷ rest) = node a b ∷ pairs rest

  -- The levels below the top.
  unfoldable pub tower : ℕ → List A → List (List A)
  tower zero level = []
  tower (suc f) level =
      let rest = tower f (pairs level) in if ltb 1 (length level) then level ∷ rest else []

  -- The top level.
  unfoldable pub peak : ℕ → List A → List A
  peak zero level = level
  peak (suc f) level =
      let rest = peak f (pairs level) in if ltb 1 (length level) then rest else level

  -- A sibling at a position is joined to the value below.
  abbrev pub join : A → Str → A → A
  join sibling position a = if same position left_str then node sibling a else node a sibling

  unfoldable pub fold_path : A → List (A × Str) → A
  fold_path a [] = a
  fold_path a ((sibling, position) ∷ rest) = fold_path (join sibling position a) rest

  pub length-pairs : (l : List A) → length (pairs l) ≡ (length l + 1) / 2
  unfolding pairs
  length-pairs [] = omega arith
  length-pairs (a ∷ []) = omega arith
  length-pairs (a ∷ b ∷ rest) = omega (arith, length-pairs rest)

  -- One step of the path leads from an element to its parent.
  pub get-pairs :
      (l : List A) (i : ℕ) (a : A)
      → get_elem? l i ≡ some a
      → get_elem? (pairs l) (i / 2) ≡ some (fold_path a (sibling l i))
  unfolding pairs fold_path sibling
  get-pairs [] i a e = cc
  get-pairs (x ∷ []) zero a e = cc
  get-pairs (x ∷ []) (suc i) a e = cc
  get-pairs (x ∷ y ∷ l) zero a e = cc
  get-pairs (x ∷ y ∷ l) (suc zero) a e = cc
  get-pairs (x ∷ y ∷ l) (suc (suc i)) a e =
      let h : suc (suc i) / 2 ≡ suc (i / 2) = omega arith in rw (h, sibling-suc) (get-pairs l i a e)

  fold_path-append :
      (a : A) (p q : List (A × Str)) → fold_path a (p ++ q) ≡ fold_path (fold_path a p) q
  unfolding fold_path
  fold_path-append a [] q = refl
  fold_path-append a ((b, position) ∷ p) q = fold_path-append (join b position a) p q

  fold_path_step :
      (a : A) (l : List A) (ls : List (List A)) (i : ℕ)
      → fold_path a (path (l ∷ ls) i) ≡ fold_path (fold_path a (sibling l i)) (path ls (i / 2))
  unfolding path
  fold_path_step a l ls i = fold_path-append a (sibling l i) (path ls (i / 2))

  pub peak_step : (f : ℕ) (l : List A) → 1 < length l → peak (suc f) l ≡ peak f (pairs l)
  unfolding peak
  peak_step f l h = rw (lt→ltb 1 (length l) h)

  pub tower_step : (f : ℕ) (l : List A) → 1 < length l → tower (suc f) l ≡ l ∷ tower f (pairs l)
  unfolding tower
  tower_step f l h = rw (lt→ltb 1 (length l) h)

  -- A path leads from an element to the top, whatever the bound.
  pub fold-path :
      (f : ℕ) (l : List A) (i : ℕ) (a : A)
      → length l ≤ f
      → get_elem? l i ≡ some a
      → peak f l ≡ fold_path a (path (tower f l) i) ∷ []
  fold-path zero [] i a h e = cc
  fold-path zero (x ∷ l) i a h e = elim h [ ]
  fold-path (suc f) [] i a h e = cc
  fold-path (suc f) (x ∷ []) zero a h e = unfold peak tower path fold_path in cc
  fold-path (suc f) (x ∷ []) (suc i) a h e = cc
  fold-path (suc f) (x ∷ y ∷ l) i a h e =
      rw
        (
          peak_step f (x ∷ y ∷ l) (omega arith),
          tower_step f (x ∷ y ∷ l) (omega arith),
          fold_path_step,
        )
        (fold-path f (pairs (x ∷ y ∷ l)) (i / 2) (fold_path a (sibling (x ∷ y ∷ l) i))
          (omega (arith, length-pairs (x ∷ y ∷ l))) (get-pairs (x ∷ y ∷ l) i a e))

  -- With the bound at least the length, the top is a single element.
  pub length-peak : (f : ℕ) (l : List A) → 0 < length l → length l ≤ f → length (peak f l) ≡ 1
  length-peak zero l p h = absurd (omega arith)
  length-peak (suc f) [] p h = absurd (omega arith)
  length-peak (suc f) (x ∷ []) p h = unfold peak in refl
  length-peak (suc f) (x ∷ y ∷ l) p h = rw (peak_step f (x ∷ y ∷ l) (omega arith)) (
      length-peak f (pairs (x ∷ y ∷ l)) (omega (arith, length-pairs (x ∷ y ∷ l)))
        (omega (arith, length-pairs (x ∷ y ∷ l))))
