-- ===== src/Merkle/Follow.antt =====
-- The verifier's loop over the siblings of a path ends at the roots of both trees.
use tc_ledger.Prelude.{
  ℕ, zero, suc, ◌+◌, ◌-◌, ◌/◌, ◌%◌, ◌≤◌, ◌<◌, ◌≡◌, inl, inr, ◌∙◌, ap, Bool-cases, parity, true,
  false, some, List, [], ◌∷◌, ◌++◌, ◌==◌, ltb, ltb→lt, ltb→le, ◌||◌, length, take, get_elem?,
  get_elem?-lt, get_elem?-some, All, All-get_elem?, arith,
}
use tc_ledger.Py.Result.{ok}
use tc_ledger.Py.Str.{Bytes}
use tc_ledger.Merkle.Hash.{Sha256, IsHash, node, node_hash-eq-node, node-IsHash}
use tc_ledger.Merkle.Tree.{pairs, tower, peak, path, length-pairs}
use tc_ledger.Merkle.Levels.{pairs-IsHash}
use tc_ledger.Merkle.Split.{full_path, full_path_step, root, root-pairs}
use tc_ledger.Merkle.Audit.{nodes}
use tc_ledger.Merkle.Consistency.{Frontier, consistency_step, consistency_steps}
use tc_ledger.Merkle.Generator.{tree_root}
use tc_ledger.Merkle.Rounds.{
  shift_while_even_odd, shift_while_even_step, sibling_odd, sibling_even, sibling_final,
  get-pairs_odd, get-pairs_even, get-pairs_final, pairs_prefix_odd, pairs_prefix_even,
  full_path_nonempty,
}

abbrev pub frontier : Bytes → Bytes → ℕ → ℕ → Frontier
frontier fn sn fn_index sn_index = record {
  fn = fn;
  sn = sn;
  fn_index = fn_index;
  sn_index = sn_index;
}

module _ (sha : Sha256) where
  step_odd :
      (b fn sn : Bytes) (i s : ℕ)
      → IsHash b
      → IsHash fn
      → IsHash sn
      → i % 2 ≡ 1
      → 0 < s
      → consistency_step sha b (frontier fn sn i s)
        ≡ ok (some (frontier (node sha b fn) (node sha b sn) (i / 2) (s / 2)))
  unfolding consistency_step
  step_odd b fn sn i s hb hf hs odd p =
      let live : (s == 0) ≡ false = ground arith in
      let joins : (i % 2 == 1 || i == s) ≡ true = ground arith in
      rw (
        live,
        joins,
        node_hash-eq-node sha b fn hb hf,
        node_hash-eq-node sha b sn hb hs,
        shift_while_even_odd i i s odd,
      )

  step_even :
      (b fn sn : Bytes) (i s : ℕ)
      → IsHash b
      → IsHash sn
      → i % 2 ≡ 0
      → i < s
      → consistency_step sha b (frontier fn sn i s)
        ≡ ok (some (frontier fn (node sha sn b) (i / 2) (s / 2)))
  unfolding consistency_step
  step_even b fn sn i s hb hs even p =
      let live : (s == 0) ≡ false = ground arith in
      let extends : (i % 2 == 1 || i == s) ≡ false = ground arith in
      rw (live, extends, node_hash-eq-node sha sn b hs hb)

  -- At the end of both levels the indices may be shifted first.
  step_final :
      (b fn sn : Bytes) (i : ℕ)
      → i % 2 ≡ 0
      → 0 < i
      → consistency_step sha b (frontier fn sn i i)
        ≡ consistency_step sha b (frontier fn sn (i / 2) (i / 2))
  unfolding consistency_step
  step_final b fn sn i even p =
      let live : (i == 0) ≡ false = ground arith in
      let live' : (i / 2 == 0) ≡ false = ground arith in
      let joins : (i % 2 == 1 || i == i) ≡ true = ground arith in
      let joins' : (i / 2 % 2 == 1 || i / 2 == i / 2) ≡ true = ground arith in
      rw (live, live', joins, joins', shift_while_even_step i i p even)

  steps_final :
      (proof : List Bytes) (b : Bytes) (rest : List Bytes) (fn sn : Bytes) (i : ℕ)
      → proof ≡ b ∷ rest
      → i % 2 ≡ 0
      → 0 < i
      → consistency_steps sha proof (frontier fn sn i i)
        ≡ consistency_steps sha proof (frontier fn sn (i / 2) (i / 2))
  unfolding consistency_steps
  steps_final proof b rest fn sn i e even p = rw e (rw (step_final b fn sn i even p))

  steps_cons :
      (b : Bytes) (rest : List Bytes) (s t : Frontier)
      → consistency_step sha b s ≡ ok (some t)
      → consistency_steps sha (b ∷ rest) s ≡ consistency_steps sha rest t
  unfolding consistency_steps
  steps_cons b rest s t e = rw e

  -- `l` is a level of the new tree; the same level of the old tree has the elements before `i` in
  -- common with it, and ends with `fn`.
  abbrev pub Reaches : List Bytes → ℕ → Bytes → Bytes → Type 0
  Reaches l i fn sn =
      consistency_steps sha (nodes (full_path (node sha) l i)) (frontier fn sn i (length l - 1))
      ≡ ok (some (frontier (tree_root sha (take i l ++ fn ∷ [])) (tree_root sha l) 0 0))

  -- The old roots of two neighbouring levels agree, and so do the new ones.
  level_roots :
      (l : List Bytes) (i : ℕ) (fn fn' : Bytes)
      → pairs (node sha) (take i l ++ fn ∷ []) ≡ take (i / 2) (pairs (node sha) l) ++ fn' ∷ []
      → frontier
          (tree_root sha (take (i / 2) (pairs (node sha) l) ++ fn' ∷ []))
          (tree_root sha (pairs (node sha) l))
          0
          0
        ≡ frontier (tree_root sha (take i l ++ fn ∷ [])) (tree_root sha l) 0 0
  level_roots l i fn fn' e = rw (
    ← e,
    root-pairs (node sha) (sha.digest []) (take i l ++ fn ∷ []),
    root-pairs (node sha) (sha.digest []) l,
  )

  level_odd :
      (l : List Bytes) (i : ℕ) (b fn sn : Bytes)
      → All IsHash l
      → IsHash fn
      → i % 2 ≡ 1
      → i < length l
      → get_elem? l (i - 1) ≡ some b
      → get_elem? l i ≡ some sn
      → Reaches (pairs (node sha) l) (i / 2) (node sha b fn) (node sha b sn)
      → Reaches l i fn sn
  level_odd l i b fn sn hl hf odd p eb es ih =
      let up : (length l - 1) / 2 ≡ length (pairs (node sha) l) - 1 =
        omega (arith, length-pairs (node sha) l) in
      let back : suc (i - 1) ≡ i = omega arith in
      let old = rw back at (pairs_prefix_odd (node sha) l (i - 1) b fn (omega arith) eb) in
      rw (full_path_step (node sha) l i p, sibling_odd l i b odd eb)
        (steps_cons b (nodes (full_path (node sha) (pairs (node sha) l) (i / 2)))
            (frontier fn sn i (length l - 1))
            (frontier (node sha b fn) (node sha b sn) (i / 2) ((length l - 1) / 2))
            (step_odd b fn sn i (length l - 1) (All-get_elem? IsHash l (i - 1) b hl eb) hf
              (All-get_elem? IsHash l i sn hl es) odd (omega arith))
          ∙ rw up (ih ∙ ap (λ t. ok (some t)) (level_roots l i fn (node sha b fn) old)))

  level_even :
      (l : List Bytes) (i : ℕ) (b fn sn : Bytes)
      → All IsHash l
      → i % 2 ≡ 0
      → i < length l
      → get_elem? l (i + 1) ≡ some b
      → get_elem? l i ≡ some sn
      → Reaches (pairs (node sha) l) (i / 2) fn (node sha sn b)
      → Reaches l i fn sn
  level_even l i b fn sn hl even p eb es ih =
      let up : (length l - 1) / 2 ≡ length (pairs (node sha) l) - 1 =
        omega (arith, length-pairs (node sha) l) in
      let inside = get_elem?-some l (i + 1) b eb in
      rw (full_path_step (node sha) l i p, sibling_even l i b even eb)
        (steps_cons b (nodes (full_path (node sha) (pairs (node sha) l) (i / 2)))
            (frontier fn sn i (length l - 1))
            (frontier fn (node sha sn b) (i / 2) ((length l - 1) / 2))
            (step_even b fn sn i (length l - 1) (All-get_elem? IsHash l (i + 1) b hl eb)
              (All-get_elem? IsHash l i sn hl es) even (omega arith))
          ∙ rw up (
              ih
              ∙ ap (λ t. ok (some t))
                  (level_roots l i fn fn (pairs_prefix_even (node sha) l i fn even (omega arith)))))

  level_final :
      (l : List Bytes) (i : ℕ) (fn sn : Bytes)
      → i % 2 ≡ 0
      → 0 < i
      → length l ≡ i + 1
      → Reaches (pairs (node sha) l) (i / 2) fn sn
      → Reaches l i fn sn
  level_final l i fn sn even p size ih =
      let halved = length-pairs (node sha) l in
      let here : length l - 1 ≡ i = omega arith in
      let up : length (pairs (node sha) l) - 1 ≡ i / 2 = omega arith in
      let (b, rest, more) =
        full_path_nonempty (node sha) (length l) (pairs (node sha) l) (i / 2) (omega arith)
          (omega arith) (omega arith) in
      let from_ih = rw up at ih in
      rw (full_path_step (node sha) l i (omega arith), sibling_final l i even (omega arith), here)
        (steps_final (nodes (full_path (node sha) (pairs (node sha) l) (i / 2))) b rest fn sn i more
            even p
          ∙ from_ih
          ∙ ap (λ t. ok (some t))
              (level_roots l i fn fn (pairs_prefix_even (node sha) l i fn even (omega arith))))

  pub consistency_steps-eq-roots :
      (f : ℕ) (l : List Bytes) (i : ℕ) (fn sn : Bytes)
      → length l ≤ f
      → All IsHash l
      → IsHash fn
      → get_elem? l i ≡ some sn
      → i < length l
      → Reaches l i fn sn
  consistency_steps-eq-roots zero l i fn sn h hl hf e p = absurd (omega arith)
  consistency_steps-eq-roots (suc f) [] i fn sn h hl hf e p = elim p [ ]
  consistency_steps-eq-roots (suc f) (x ∷ []) zero fn sn h hl hf e p =
      unfold consistency_steps full_path tower path root peak in cc
  consistency_steps-eq-roots (suc f) (x ∷ []) (suc i) fn sn h hl hf e p = absurd (omega arith)
  consistency_steps-eq-roots (suc f) (x ∷ y ∷ r) i fn sn h hl hf e p =
      let l = x ∷ y ∷ r in
      let size = length-pairs (node sha) l in
      let hashes = pairs-IsHash sha l hl in
      elim (parity i) [
        | inr odd ↦
            let (b, eb) = get_elem?-lt l (i - 1) (omega arith) in
            level_odd l i b fn sn hl hf odd p eb e (
              consistency_steps-eq-roots f (pairs (node sha) l) (i / 2) (node sha b fn)
                (node sha b sn) (omega arith) hashes (node-IsHash sha b fn)
                (get-pairs_odd (node sha) l i b sn odd eb e) (omega arith))
        | inl even ↦ elim (Bool-cases (ltb (i + 1) (length l))) [
          | inl more ↦
              let (b, eb) = get_elem?-lt l (i + 1) (ltb→lt _ _ more) in
              level_even l i b fn sn hl even p eb e (
                consistency_steps-eq-roots f (pairs (node sha) l) (i / 2) fn (node sha sn b)
                  (omega arith) hashes hf (get-pairs_even (node sha) l i sn b even e eb)
                  (omega arith))
          | inr final ↦
              let short = ltb→le (i + 1) (length l) final in
              level_final l i fn sn even (omega arith) (omega arith) (
                consistency_steps-eq-roots f (pairs (node sha) l) (i / 2) fn sn (omega arith) hashes
                  hf (get-pairs_final (node sha) l i sn even short e) (omega arith))
        ]
      ]
