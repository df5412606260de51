-- ===== src/Merkle/Hold.antt =====
-- A property of the leaves that every node has, as being a list of byte values, holds all over the
-- tree: on every path and at the root.
use tc_ledger.Prelude.{
  ℕ, zero, suc, ◌+◌, ◌-◌, ◌/◌, ◌%◌, ◌≡◌, inl, inr, Bool-cases, Option, none, some, refl, List, [],
  ◌∷◌, ◌++◌, ◌==◌, ltb, length, get_elem?, All, All-map, All-get_elem?,
}
use tc_ledger.Py.Str.{Str, Bytes, IsBytes, same}
use tc_ledger.Merkle.Hash.{Sha256, node, export_leaf_hash}
use tc_ledger.Merkle.Tree.{left_str, right_str, join, pairs, tower, sibling, path, fold_path}
use tc_ledger.Merkle.Inclusion.{leaves, path_of}

module _ {A : Type 0} (P : A → Type 0) where
  abbrev pub Steps : List (A × Str) → Type 0
  Steps p = All (λ s. P s.0) p

  one_Steps :
      (o : Option A) (position : Str)
      → ((b : A) → o ≡ some b → P b)
      → Steps (elim o [ some b ↦ (b, position) ∷ [] | none ↦ [] ])
  one_Steps none position h = tt
  one_Steps (some b) position h = (h b refl, tt)

  sibling-Steps : (l : List A) (i : ℕ) → All P l → Steps (sibling l i)
  unfolding sibling
  sibling-Steps l i h = elim (Bool-cases (i % 2 == 0)) [
    | inl even ↦
        rw even (one_Steps (get_elem? l (i + 1)) right_str (λ b. All-get_elem? P l (i + 1) b h))
    | inr odd ↦
        rw odd (one_Steps (get_elem? l (i - 1)) left_str (λ b. All-get_elem? P l (i - 1) b h))
  ]

  Steps-append : (p q : List (A × Str)) → Steps p → Steps q → Steps (p ++ q)
  Steps-append [] q hp hq = hq
  Steps-append (s ∷ p) q hp hq = (hp.0, Steps-append p q hp.1 hq)

  path-Steps : (levels : List (List A)) (i : ℕ) → All (All P) levels → Steps (path levels i)
  unfolding path
  path-Steps [] i h = tt
  path-Steps (l ∷ levels) i h =
      Steps-append (sibling l i) (path levels (i / 2)) (sibling-Steps l i h.0)
        (path-Steps levels (i / 2) h.1)

  module _ (node : A → A → A) (closed : (a b : A) → P (node a b)) where
    pairs-All : (l : List A) → All P l → All P (pairs node l)
    unfolding pairs
    pairs-All [] h = tt
    pairs-All (a ∷ []) h = h
    pairs-All (a ∷ b ∷ l) h = (closed a b, pairs-All l h.1.1)

    tower-All : (f : ℕ) (l : List A) → All P l → All (All P) (tower node f l)
    unfolding tower
    tower-All zero l h = tt
    tower-All (suc f) l h =
        let rest = tower-All f (pairs node l) (pairs-All l h) in
        elim (Bool-cases (ltb 1 (length l))) [
          | inl more ↦ rw more (h, rest)
          | inr done ↦ rw done tt
        ]

    join-closed : (s : A) (position : Str) (a : A) → P (join node s position a)
    join-closed s position a = elim (Bool-cases (same position left_str)) [
      | inl l ↦ rw l (closed s a)
      | inr r ↦ rw r (closed a s)
    ]

    fold_path-closed : (a : A) (p : List (A × Str)) → P a → P (fold_path node a p)
    unfolding fold_path
    fold_path-closed a [] h = h
    fold_path-closed a ((s, position) ∷ p) h =
        fold_path-closed (join node s position a) p (join-closed s position a)

module _ (sha : Sha256) where
  node-IsBytes : (a b : Bytes) → IsBytes (node sha a b)
  unfolding node
  node-IsBytes a b = sha.digest_bytes (1 ∷ (a ++ b))

  pub export_leaf_hash-IsBytes : (b : Bytes) → IsBytes (export_leaf_hash sha b)
  unfolding export_leaf_hash
  export_leaf_hash-IsBytes b = sha.digest_bytes (0 ∷ b)

  pub path_of-IsBytes : (lines : List Bytes) (i : ℕ) → Steps IsBytes (path_of sha lines i)
  path_of-IsBytes lines i =
      path-Steps IsBytes (tower (node sha) (length lines) (leaves sha lines)) i (
        tower-All IsBytes (node sha) node-IsBytes (length lines) (leaves sha lines)
          (All-map (export_leaf_hash sha) IsBytes export_leaf_hash-IsBytes lines))

  pub fold_path-IsBytes :
      (a : Bytes) (p : List (Bytes × Str)) → IsBytes a → IsBytes (fold_path (node sha) a p)
  fold_path-IsBytes a p h = fold_path-closed IsBytes (node sha) node-IsBytes a p h
