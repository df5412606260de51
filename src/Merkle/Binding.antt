-- ===== src/Merkle/Binding.antt =====
-- What an accepted inclusion proof shows: the line stands in the export at the index, or the inputs
-- that are hashed for it collide under SHA-256 with those of the line's own path.
use tc_ledger.Prelude.{
  ℕ, if◌then◌else◌, ◌≡◌, ◌⊎◌, inl, inr, refl, sym, ◌∙◌, ap, ap₂, Bool-cases, true, some, List, [],
  ◌∷◌, ◌++◌, ◌==◌, not, length, suc, get_elem?, get_elem?-some, All, arith,
}
use tc_ledger.Py.Result.{ok, value_error, raise_if, ◌>>=◌, >>=-eq-ok}
use tc_ledger.Py.Int.{pos}
use tc_ledger.Py.Str.{Str, Bytes, same, same→eq}
use tc_ledger.Merkle.Hash.{
  Sha256, CollisionIn, IsHash, Bytes-discrete, node, export_leaf_hash, export_leaf_hash-IsHash,
}
use tc_ledger.Merkle.Tree.{left_str, right_str, join, fold_path}
use tc_ledger.Merkle.Levels.{export_merkle_root}
use tc_ledger.Merkle.Proof.{
  expected_proof_directions, climb_step, climb, verify_export_merkle_proof,
}
use tc_ledger.Merkle.Steps.{IsStep, climb-eq-fold_path, join-IsHash}
use tc_ledger.Merkle.Inclusion.{
  path_of, path_of-IsStep, export_merkle_root-eq-fold_path, export_merkle_proof-eq-path_of,
}
use tc_ledger.Merkle.Directions.{positions, expected_proof_directions-eq-positions}

append-injective : (l m r s : Bytes) → length l ≡ length m → l ++ r ≡ m ++ s → (l ≡ m) × (r ≡ s)
append-injective [] [] r s n e = (refl, e)
append-injective [] (y ∷ m) r s n e = absurd (omega arith)
append-injective (x ∷ l) [] r s n e = absurd (omega arith)
append-injective (x ∷ l) (y ∷ m) r s n e =
    let heads : x ≡ y = cc in
    let tails = append-injective l m r s (omega arith) (cc) in
    (ap₂ (λ a b. a ∷ b) heads tails.0, tails.1)

-- What is hashed for the node over a value and its sibling.
children : Bytes → Str → Bytes → Bytes
children sibling position value =
    if same position left_str then sibling ++ value else value ++ sibling

children-injective :
    (a b s t : Bytes) (position : Str)
    → IsHash a
    → IsHash b
    → IsHash s
    → IsHash t
    → children s position a ≡ children t position b
    → a ≡ b
unfolding children
children-injective a b s t position ha hb hs ht e = elim (Bool-cases (same position left_str)) [
  | inl left ↦ (append-injective s t a b (hs ∙ sym ht) (ground (arith, left, e))).1
  | inr right ↦ (append-injective a b s t (ha ∙ sym hb) (ground (arith, right, e))).0
]

module _ (sha : Sha256) where
  -- The inputs that are hashed on the way up from a value along a proof.
  pub climb_inputs : Bytes → List (Bytes × Str) → List Bytes
  climb_inputs value [] = []
  climb_inputs value ((sibling, position) ∷ proof) =
      (1 ∷ children sibling position value)
      ∷ climb_inputs (join (node sha) sibling position value) proof

  -- The inputs that are hashed when a proof is verified for a line: the leaf's, then the nodes'.
  pub hashed : Bytes → List (Bytes × Str) → List Bytes
  hashed line proof = (0 ∷ line) ∷ climb_inputs (export_leaf_hash sha line) proof

  -- Equal digests at the head of two lists have equal inputs, or collide there.
  digest-injective :
      (a b : Bytes) (inputs inputs' : List Bytes)
      → sha.digest a ≡ sha.digest b
      → (a ≡ b) ⊎ CollisionIn sha (a ∷ inputs) (b ∷ inputs')
  digest-injective a b inputs inputs' e = elim (Bytes-discrete a b) [
    | yes q ↦ inl q
    | no n ↦ inr (0, a, b, refl, refl, n, e)
  ]

  collision_later :
      (x y : Bytes) (inputs inputs' : List Bytes)
      → CollisionIn sha inputs inputs'
      → CollisionIn sha (x ∷ inputs) (y ∷ inputs')
  collision_later x y inputs inputs' (k, a, b, at_a, at_b, n, e) = (suc k, a, b, at_a, at_b, n, e)

  join-eq-digest :
      (s : Bytes) (position : Str) (a : Bytes)
      → join (node sha) s position a ≡ sha.digest (1 ∷ children s position a)
  unfolding node children
  join-eq-digest s position a = elim (Bool-cases (same position left_str)) [
    | inl left ↦ ground (arith, left)
    | inr right ↦ ground (arith, right)
  ]

  -- Paths with the same positions to the same top start at the same value, or collide on the way.
  fold_path-injective :
      (p q : List (Bytes × Str)) (a b : Bytes)
      → IsHash a
      → IsHash b
      → All IsStep p
      → All IsStep q
      → positions p ≡ positions q
      → fold_path (node sha) a p ≡ fold_path (node sha) b q
      → (a ≡ b) ⊎ CollisionIn sha (climb_inputs a p) (climb_inputs b q)
  unfolding fold_path climb_inputs
  fold_path-injective [] [] a b ha hb hp hq n e = inl e
  fold_path-injective [] (y ∷ q) a b ha hb hp hq n e = cc
  fold_path-injective (x ∷ p) [] a b ha hb hp hq n e = cc
  fold_path-injective ((s, position) ∷ p) ((t, position') ∷ q) a b ha hb hp hq n e =
      let eq : position' ≡ position = cc in
      let rest : positions p ≡ positions q = cc in
      let up = join (node sha) s position a in
      let up' = join (node sha) t position' b in
      elim (fold_path-injective p q up up' (join-IsHash sha a s position)
        (join-IsHash sha b t position') hp.1 hq.1 rest e) [
          | inr c ↦ inr (
              collision_later (1 ∷ children s position a) (1 ∷ children t position' b)
                (climb_inputs up p) (climb_inputs up' q) c)
          | inl j ↦
              elim (digest-injective (1 ∷ children s position a) (1 ∷ children t position' b)
                (climb_inputs up p) (climb_inputs up' q)
                (sym (join-eq-digest s position a) ∙ j ∙ join-eq-digest t position' b)) [
                  | inr c ↦ inr c
                  | inl same_input ↦
                      let same_children : children s position a ≡ children t position' b = cc in
                      inl (
                        children-injective a b s t position ha hb hp.0.0 hq.0.0
                          (same_children ∙ ap (λ u. children t u b) eq))
                ]
        ]

  climb_step-IsStep :
      (a b : Bytes) (position : Str) (c : Bytes)
      → climb_step sha a b position ≡ ok c
      → IsStep (b, position)
  unfolding climb_step
  climb_step-IsStep a b position c e = elim (Bool-cases (length b == 32)) [
    | inl size ↦ (
      ground arith,
      elim (Bool-cases (same position left_str)) [
        | inl l ↦ inl (same→eq position left_str l)
        | inr n ↦ elim (Bool-cases (same position right_str)) [
          | inl r ↦ inr (same→eq position right_str r)
          | inr m ↦ absurd (ground arith)
        ]
      ],
    )
    | inr size ↦ absurd (ground arith)
  ]

  -- A climb that does not raise has only hashes at known positions.
  climb-IsStep : (p : List (Bytes × Str)) (a c : Bytes) → climb sha a p ≡ ok c → All IsStep p
  unfolding climb
  climb-IsStep [] a c e = tt
  climb-IsStep ((b, position) ∷ p) a c e =
      let (next, first, rest) =
        >>=-eq-ok (climb_step sha a b position) (λ next. climb sha next p) e in
      (climb_step-IsStep a b position next first, climb-IsStep p next c rest)

  -- A verification that returns true has climbed to the root over hashes at known positions.
  verify_export_merkle_proof_inversion :
      (line : Bytes) (proof : List (Bytes × Str)) (root : Bytes)
      → verify_export_merkle_proof sha line proof root ≡ ok true
      → All IsStep proof × (fold_path (node sha) (export_leaf_hash sha line) proof ≡ root)
  unfolding verify_export_merkle_proof
  verify_export_merkle_proof_inversion line proof root e =
      let leaf = export_leaf_hash sha line in
      let (_, _, run) =
        >>=-eq-ok (raise_if (not (length root == 32)) value_error)
          (λ _. climb sha leaf proof >>= λ current. ok (same current root)) e in
      let (top, climbed, end) =
        >>=-eq-ok (climb sha leaf proof) (λ current. ok (same current root)) run in
      let steps = climb-IsStep proof leaf top climbed in
      let folded : top ≡ fold_path (node sha) leaf proof =
        cc (climb-eq-fold_path sha leaf proof (export_leaf_hash-IsHash sha line) steps) in
      (steps, sym folded ∙ same→eq top root (cc))

  -- The expected directions of an index in the export are those of its line's path.
  pub directions_of-path_of :
      (lines : List Bytes) (i : ℕ) (line : Bytes) (dirs : List Str)
      → get_elem? lines i ≡ some line
      → expected_proof_directions (pos (length lines)) (pos i) ≡ ok dirs
      → dirs ≡ positions (path_of sha lines i)
  directions_of-path_of lines i line dirs at_i h =
      let inside = get_elem?-some lines i line at_i in
      let expected = expected_proof_directions-eq-positions sha lines (pos i) (omega arith) in
      let made = export_merkle_proof-eq-path_of sha lines i inside in
      let shaped = rw made at expected in cc

  -- If `verify_export_merkle_proof` accepts a proof for some bytes under the root of an export, and
  -- the proof's positions are the expected directions of an index in the export, then the bytes are
  -- the line at that index, or SHA-256 has a collision between what this verification hashes and
  -- what the line's own path hashes: different inputs, at one height, with one digest.
  pub verify_export_merkle_proof-binding :
      (lines : List Bytes) (i : ℕ) (line raw root : Bytes) (proof : List (Bytes × Str))
      → get_elem? lines i ≡ some line
      → export_merkle_root sha lines ≡ ok root
      → expected_proof_directions (pos (length lines)) (pos i) ≡ ok (positions proof)
      → verify_export_merkle_proof sha raw proof root ≡ ok true
      → (raw ≡ line) ⊎ CollisionIn sha (hashed raw proof) (hashed line (path_of sha lines i))
  unfolding export_leaf_hash hashed
  verify_export_merkle_proof-binding lines i line raw root proof at_i rooted dirs accepted =
      let (steps, top) = verify_export_merkle_proof_inversion raw proof root accepted in
      let honest = export_merkle_root-eq-fold_path sha lines i line at_i in
      let same_positions = directions_of-path_of lines i line (positions proof) at_i dirs in
      let same_top : fold_path (node sha) (export_leaf_hash sha raw) proof
          ≡ fold_path (node sha) (export_leaf_hash sha line) (path_of sha lines i) =
        cc in
      elim (fold_path-injective proof (path_of sha lines i) (export_leaf_hash sha raw)
        (export_leaf_hash sha line) (export_leaf_hash-IsHash sha raw)
        (export_leaf_hash-IsHash sha line) steps (path_of-IsStep sha lines i) same_positions
        same_top) [
          | inl q ↦ elim (leaf-injective raw line q) [ inl e ↦ inl e | inr c ↦ inr c ]
          | inr c ↦ inr (collision_later (0 ∷ raw) (0 ∷ line) _ _ c)
        ]
    where
      leaf-injective :
          (a b : Bytes)
          → export_leaf_hash sha a ≡ export_leaf_hash sha b
          → (a ≡ b) ⊎ CollisionIn sha (hashed a proof) (hashed b (path_of sha lines i))
      leaf-injective a b e =
          elim (digest-injective (0 ∷ a) (0 ∷ b) (climb_inputs (export_leaf_hash sha a) proof)
            (climb_inputs (export_leaf_hash sha b) (path_of sha lines i)) e) [
              | inl q ↦ inl (cc)
              | inr c ↦ inr c
            ]
