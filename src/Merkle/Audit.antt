-- ===== src/Merkle/Audit.antt =====
-- A consistency proof as a path. The last node of the old tree, taken at the lowest level where it
-- has no sibling to its right in the old tree, and the siblings on the path from there to the new root.
use mathlib.Core.List.{append_assoc, map-append}
use native.Mathlib.Nat.{pow-succ'}
use tc_ledger.Prelude.{
  ℕ, zero, suc, ◌+◌, ◌-◌, ◌*◌, ◌/◌, ◌%◌, ◌^◌, ◌≤◌, ◌<◌, ◌≡◌, refl, sym, ◌∙◌, Bool, true, false,
  ◌&&◌, List, [], ◌∷◌, ◌++◌, ◌==◌, inl, inr, parity, Option, none, some, if◌then◌else◌, map, length,
  get_elem?, arith,
}
use tc_ledger.Py.Str.{Str}
use tc_ledger.Merkle.Tree.{pairs, tower, peak, path, length-pairs}
use tc_ledger.Merkle.Split.{
  get-append_left, get-append_right, pairs-append, full_path, root, root-pairs,
}
use tc_ledger.Merkle.SplitPath.{full_path-append_left, full_path-append_right}

pow2_pos : (j : ℕ) → 0 < 2 ^ j
pow2_pos zero = omega arith
pow2_pos (suc j) = let double : 2 ^ suc j ≡ 2 * 2 ^ j = pow-succ' 2 j in omega (arith, pow2_pos j)

-- The siblings of a path, without their positions.
abbrev pub nodes {ℓ} : {A : Type ℓ} → List (A × Str) → List A
nodes = map (λ s. s.0)

unfoldable pub to_list {ℓ} : {A : Type ℓ} → Option A → List A
to_list none = []
to_list (some a) = a ∷ []

abbrev pub element {ℓ} : {A : Type ℓ} → List A → ℕ → List A
element l i = to_list (get_elem? l i)

module _ {A : Type 0} (node : A → A → A) where
  -- The proof from an index at the level where the old tree ends there; the node itself is left out
  -- if the verifier knows it.
  unfoldable pub audit_odd : ℕ → List A → Bool → List A
  audit_odd i l known = (if known && i == 0 then [] else element l i) ++ nodes (full_path node l i)

  unfoldable pub audit : ℕ → ℕ → List A → Bool → List A
  audit zero m l known = []
  audit (suc f) m l known =
      let halved = audit f (m / 2) (pairs node l) known in
      if m % 2 == 0 then halved else audit_odd (m - 1) l known

  pub audit-odd :
      (f m : ℕ) (l : List A) (known : Bool)
      → m % 2 ≡ 1
      → audit (suc f) m l known ≡ audit_odd (m - 1) l known
  unfolding audit
  audit-odd f m l known h = ground arith

  pub audit-even :
      (f m : ℕ) (l : List A) (known : Bool)
      → m % 2 ≡ 0
      → audit (suc f) m l known ≡ audit f (m / 2) (pairs node l) known
  unfolding audit
  audit-even f m l known h = ground arith

  module _ (empty : A) where
    audit_odd-append_left :
        (j i : ℕ) (l m : List A) (known : Bool)
        → length l ≡ 2 ^ j
        → 0 < length m
        → length m ≤ 2 ^ j
        → i < length l
        → audit_odd i (l ++ m) known ≡ audit_odd i l known ++ root node empty m ∷ []
    unfolding audit_odd
    audit_odd-append_left j i l m known e p q h =
        rw (get-append_left l m i h, full_path-append_left node empty j l m i e p q h, map-append)
          (sym (
            append_assoc (if known && i == 0 then [] else element l i) (nodes (full_path node l i))
              (root node empty m ∷ [])))

    audit_odd-append_right :
        (j i : ℕ) (l m : List A) (known : Bool)
        → length l ≡ 2 ^ suc j
        → 0 < length m
        → length m ≤ 2 ^ suc j
        → i < length m
        → audit_odd (2 ^ suc j + i) (l ++ m) known ≡ audit_odd i m false ++ root node empty l ∷ []
    unfolding audit_odd
    audit_odd-append_right j i l m known e p q h =
        let positive : 0 < 2 ^ suc j = omega arith in
        let late : (known && 2 ^ suc j + i == 0) ≡ false = ground arith in
        rw
          (
            late,
            get-append_right l m i (2 ^ suc j + i) (omega arith),
            full_path-append_right node empty (suc j) l m i e p q h,
            map-append,
          )
          (sym (append_assoc (element m i) (nodes (full_path node m i)) (root node empty l ∷ [])))

    audit_one :
        (x : A) (known : Bool)
        → audit_odd 0 (x ∷ []) known ≡ (if known then [] else root node empty (x ∷ []) ∷ [])
    unfolding audit_odd full_path root
    audit_one x true = unfold tower path in refl
    audit_one x false = unfold tower path peak to_list in refl

    -- The old tree is the whole list, of a power of two elements.
    pub audit_whole :
        (j f : ℕ) (l : List A) (known : Bool)
        → length l ≡ 2 ^ j
        → 2 ^ j ≤ f
        → audit f (2 ^ j) l known ≡ (if known then [] else root node empty l ∷ [])
    audit_whole j zero l known e h = absurd (omega (arith, pow2_pos j))
    audit_whole zero (suc f) (x ∷ []) known e h =
        audit-odd f 1 (x ∷ []) known refl ∙ audit_one x known
    audit_whole zero (suc f) [] known e h = absurd (omega arith)
    audit_whole zero (suc f) (x ∷ y ∷ l) known e h = absurd (omega arith)
    audit_whole (suc j) (suc f) l known e h =
        let double : 2 ^ suc j ≡ 2 * 2 ^ j = pow-succ' 2 j in
        let half : 2 ^ suc j / 2 ≡ 2 ^ j = omega arith in
        let size = length-pairs node l in
        rw (
          audit-even f (2 ^ suc j) l known (omega arith),
          half,
          audit_whole j f (pairs node l) known (omega arith) (omega (arith, pow2_pos j)),
          root-pairs node empty l,
        )

    halves :
        (j m : ℕ) (l r : List A)
        → length l ≡ 2 ^ j
        → 0 < length r
        → length r ≤ 2 ^ j
        → m % 2 ≡ 0
        → 0 < m
        → m ≤ 2 ^ j
        → (i : ℕ) × (length l ≡ 2 * 2 ^ i)
          × (length (pairs node l) ≡ 2 ^ i)
          × ((0 < length (pairs node r)) × (length (pairs node r) ≤ 2 ^ i))
          × (m / 2 ≤ 2 ^ i)
    halves zero m l r e p q even m0 mj = absurd (omega arith)
    halves (suc i) m l r e p q even m0 mj =
        let double : 2 ^ suc i ≡ 2 * 2 ^ i = pow-succ' 2 i in
        let size_l = length-pairs node l in
        let size_r = length-pairs node r in
        (i, omega arith, omega arith, (omega arith, omega arith), omega arith)

    -- The old tree ends in the first part.
    pub audit-append_left :
        (f j m : ℕ) (l r : List A) (known : Bool)
        → length l ≡ 2 ^ j
        → 0 < length r
        → length r ≤ 2 ^ j
        → 0 < m
        → m ≤ 2 ^ j
        → m ≤ f
        → audit f m (l ++ r) known ≡ audit f m l known ++ root node empty r ∷ []
    audit-append_left zero j m l r known e p q m0 mj mf = absurd (omega arith)
    audit-append_left (suc f) j m l r known e p q m0 mj mf = elim (parity m) [
      | inr odd ↦
          rw (audit-odd f m (l ++ r) known odd, audit-odd f m l known odd)
            (audit_odd-append_left j (m - 1) l r known e p q (omega arith))
      | inl even ↦
          let (i, double, half_l, half_r, up) = halves j m l r e p q even m0 mj in
          rw
            (
              audit-even f m (l ++ r) known even,
              audit-even f m l known even,
              pairs-append node (2 ^ i) l r double,
              ← root-pairs node empty r,
            )
            (audit-append_left f i (m / 2) (pairs node l) (pairs node r) known half_l half_r.0
              half_r.1 (omega arith) up (omega arith))
    ]

    -- The old tree ends in the second part.
    pub audit-append_right :
        (f j m : ℕ) (l r : List A) (known : Bool)
        → length l ≡ 2 ^ j
        → length r ≤ 2 ^ j
        → 0 < m
        → m < length r
        → m ≤ f
        → audit f (2 ^ j + m) (l ++ r) known ≡ audit f m r false ++ root node empty l ∷ []
    audit-append_right zero j m l r known e q m0 mj mf = absurd (omega arith)
    audit-append_right (suc f) zero m l r known e q m0 mj mf = absurd (omega arith)
    audit-append_right (suc f) (suc j) m l r known e q m0 mj mf =
        let double : 2 ^ suc j ≡ 2 * 2 ^ j = pow-succ' 2 j in
        elim (parity m) [
          | inr odd ↦
              let shifted : 2 ^ suc j + m - 1 ≡ 2 ^ suc j + (m - 1) = omega arith in
              rw
                (
                  audit-odd f (2 ^ suc j + m) (l ++ r) known (omega arith),
                  audit-odd f m r false odd,
                  shifted,
                )
                (audit_odd-append_right j (m - 1) l r known e (omega arith) q (omega arith))
          | inl even ↦
              let size_l = length-pairs node l in
              let size_r = length-pairs node r in
              let halved : (2 ^ suc j + m) / 2 ≡ 2 ^ j + m / 2 = omega arith in
              rw
                (
                  audit-even f (2 ^ suc j + m) (l ++ r) known (omega arith),
                  audit-even f m r false even,
                  pairs-append node (2 ^ j) l r (omega arith),
                  halved,
                  ← root-pairs node empty l,
                )
                (audit-append_right f j (m / 2) (pairs node l) (pairs node r) known (omega arith)
                  (omega arith) (omega arith) (omega arith) (omega arith))
        ]
