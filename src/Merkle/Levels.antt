-- ===== src/Merkle/Levels.antt =====
-- Levels and roots of src/tc_ledger/ledger.py, and their agreement with the trees of `Tree`.
use tc_ledger.Prelude.{
  ℕ, zero, suc, ◌≤◌, ◌<◌, ◌≡◌, ◌++◌, ◌∙◌, refl, ap, List, [], ◌∷◌, ltb, lt→ltb, if◌then◌else◌,
  length, All, map, arith,
}
use tc_ledger.Py.Result.{Result, ok, err, out_of_fuel, index_error, ◌>>=◌}
use tc_ledger.Py.Str.{Bytes}
use tc_ledger.Merkle.Hash.{
  Sha256, IsHash, node, node_hash, node_hash-eq-node, node-IsHash, export_leaf_hash,
}
use tc_ledger.Merkle.Tree.{pairs, tower, peak, length-pairs, peak_step, tower_step}

-- levels[:-1]
unfoldable pub drop_last : List (List Bytes) → List (List Bytes)
drop_last [] = []
drop_last (level ∷ []) = []
drop_last (level ∷ next ∷ rest) = level ∷ drop_last (next ∷ rest)

-- level[0]
unfoldable pub first_node : List Bytes → Result Bytes
first_node [] = err index_error
first_node (top ∷ rest) = ok top

module _ (sha : Sha256) where
  -- The `for` loop over one level.
  unfoldable pub next_level : List Bytes → Result (List Bytes)
  next_level [] = ok []
  next_level (left ∷ []) = ok (left ∷ [])
  next_level (left ∷ right ∷ rest) = do
    joined ← node_hash sha left right
    nodes ← next_level rest
    ok (joined ∷ nodes)

  -- `while len(level) > 1`, with `levels.append(level)`.
  unfoldable pub grow_levels : ℕ → List Bytes → Result (List (List Bytes))
  grow_levels zero level = err out_of_fuel
  grow_levels (suc fuel) level =
      let taller = (do next ← next_level level; rest ← grow_levels fuel next; ok (level ∷ rest)) in
      if ltb 1 (length level) then taller else ok (level ∷ [])

  unfoldable pub build_export_levels : List Bytes → Result (List (List Bytes))
  build_export_levels [] = ok ((sha.digest [] ∷ []) ∷ [])
  build_export_levels (line ∷ lines) =
      grow_levels (suc (length lines)) (map (export_leaf_hash sha) (line ∷ lines))

  -- `while len(level) > 1`, with the level alone.
  unfoldable pub reduce_level : ℕ → List Bytes → Result (List Bytes)
  reduce_level zero level = err out_of_fuel
  reduce_level (suc fuel) level =
      let smaller = (do next ← next_level level; reduce_level fuel next) in
      if ltb 1 (length level) then smaller else ok level

  unfoldable pub export_merkle_root : List Bytes → Result Bytes
  export_merkle_root [] = ok (sha.digest [])
  export_merkle_root (line ∷ lines) = do
    level ← reduce_level (suc (length lines)) (map (export_leaf_hash sha) (line ∷ lines))
    first_node level

  pub next_level-eq-pairs : (l : List Bytes) → All IsHash l → next_level l ≡ ok (pairs (node sha) l)
  unfolding next_level pairs
  next_level-eq-pairs [] h = refl
  next_level-eq-pairs (a ∷ []) h = refl
  next_level-eq-pairs (a ∷ b ∷ l) h =
      rw (node_hash-eq-node sha a b h.0 h.1.0, next_level-eq-pairs l h.1.1)

  pub pairs-IsHash : (l : List Bytes) → All IsHash l → All IsHash (pairs (node sha) l)
  unfolding pairs
  pairs-IsHash [] h = tt
  pairs-IsHash (a ∷ []) h = h
  pairs-IsHash (a ∷ b ∷ l) h = (node-IsHash sha a b, pairs-IsHash l h.1.1)

  reduce_level_step :
      (f : ℕ) (l : List Bytes)
      → All IsHash l
      → 1 < length l
      → reduce_level (suc f) l ≡ reduce_level f (pairs (node sha) l)
  unfolding reduce_level
  reduce_level_step f l h p = rw (lt→ltb 1 (length l) p, next_level-eq-pairs l h)

  grow_levels_step :
      (f : ℕ) (l : List Bytes)
      → All IsHash l
      → 1 < length l
      → grow_levels (suc f) l ≡ (do rest ← grow_levels f (pairs (node sha) l); ok (l ∷ rest))
  unfolding grow_levels
  grow_levels_step f l h p = rw (lt→ltb 1 (length l) p, next_level-eq-pairs l h)

  pub reduce_level-eq-peak :
      (f : ℕ) (l : List Bytes)
      → All IsHash l
      → 0 < length l
      → length l ≤ f
      → reduce_level f l ≡ ok (peak (node sha) f l)
  reduce_level-eq-peak zero l h p n = absurd (omega arith)
  reduce_level-eq-peak (suc f) [] h p n = elim p [ ]
  reduce_level-eq-peak (suc f) (a ∷ []) h p n = unfold reduce_level peak in refl
  reduce_level-eq-peak (suc f) (a ∷ b ∷ l) h p n =
      rw
        (
          reduce_level_step f (a ∷ b ∷ l) h (omega arith),
          peak_step (node sha) f (a ∷ b ∷ l) (omega arith),
        )
        (reduce_level-eq-peak f (pairs (node sha) (a ∷ b ∷ l)) (pairs-IsHash (a ∷ b ∷ l) h)
          (omega (arith, length-pairs (node sha) (a ∷ b ∷ l)))
          (omega (arith, length-pairs (node sha) (a ∷ b ∷ l))))

  drop_last-cons-append :
      (l : List Bytes) (ls : List (List Bytes)) (t : List Bytes)
      → drop_last (l ∷ (ls ++ t ∷ [])) ≡ l ∷ drop_last (ls ++ t ∷ [])
  unfolding drop_last
  drop_last-cons-append l [] t = refl
  drop_last-cons-append l (m ∷ ls) t = refl

  pub drop_last-append : (ls : List (List Bytes)) (t : List Bytes) → drop_last (ls ++ t ∷ []) ≡ ls
  unfolding drop_last
  drop_last-append [] t = refl
  drop_last-append (l ∷ ls) t =
      drop_last-cons-append l ls t ∙ ap (λ r. l ∷ r) (drop_last-append ls t)

  -- The levels are those below the top, and the top.
  pub grow_levels-eq-tower :
      (f : ℕ) (l : List Bytes)
      → All IsHash l
      → 0 < length l
      → length l ≤ f
      → grow_levels f l ≡ ok (tower (node sha) f l ++ peak (node sha) f l ∷ [])
  grow_levels-eq-tower zero l h p n = absurd (omega arith)
  grow_levels-eq-tower (suc f) [] h p n = elim p [ ]
  grow_levels-eq-tower (suc f) (a ∷ []) h p n = unfold grow_levels tower peak in refl
  grow_levels-eq-tower (suc f) (a ∷ b ∷ l) h p n = rw (
    grow_levels_step f (a ∷ b ∷ l) h (omega arith),
    peak_step (node sha) f (a ∷ b ∷ l) (omega arith),
    tower_step (node sha) f (a ∷ b ∷ l) (omega arith),
    grow_levels-eq-tower f (pairs (node sha) (a ∷ b ∷ l)) (pairs-IsHash (a ∷ b ∷ l) h)
        (omega (arith, length-pairs (node sha) (a ∷ b ∷ l)))
        (omega (arith, length-pairs (node sha) (a ∷ b ∷ l))),
  )
