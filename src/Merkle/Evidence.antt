-- ===== src/Merkle/Evidence.antt =====
-- Merkle v1 trees over evidence identifiers of src/tc_ledger/ledger.py, and their agreement with the
-- trees over export lines. `_build_levels` and `_build_export_levels` have the same loop, which
-- is `grow_levels`; so have `merkle_proof` and `export_merkle_proof`, and both verifiers.
pub mod Binding
use tc_ledger.Prelude.{
  ℕ, zero, suc, ◌≤◌, ◌<◌, ◌≡◌, ◌++◌, ◌∙◌, refl, sym, ap, Bool, true, not, List, [], ◌∷◌, ◌==◌, leb,
  some, get_elem?, if◌then◌else◌, length, All, map, length-map, arith,
}
use tc_ledger.Py.Result.{
  Result, ok, err, index_error, value_error, raise_if, >>=-eq-ok, ◌>>=◌, ◌>>◌,
}
use tc_ledger.Py.Int.{ℤ, pos, negsuc}
use tc_ledger.Py.Str.{Str, Bytes, same}
use tc_ledger.Py.Utf8.{utf8_encode}
use tc_ledger.Merkle.Hash.{Sha256, IsHash, node, export_leaf_hash}
use tc_ledger.Merkle.Tree.{tower, peak}
use tc_ledger.Merkle.Levels.{
  drop_last, first_node, grow_levels, build_export_levels, export_merkle_root, grow_levels-eq-tower,
  reduce_level-eq-peak,
}
use tc_ledger.Merkle.Proof.{proof_steps, export_merkle_proof, climb, verify_export_merkle_proof}
use tc_ledger.Merkle.Inclusion.{leaves-IsHash, verify-export_merkle_proof}

-- levels[-1]
unfoldable pub last_level : List (List Bytes) → Result (List Bytes)
last_level [] = err index_error
last_level (level ∷ []) = ok level
last_level (level ∷ next ∷ rest) = last_level (next ∷ rest)

-- The UTF-8 encodings of texts, or the first error.
unfoldable pub encodings : List Str → Result (List Bytes)
encodings [] = ok []
encodings (id ∷ ids) = do line ← utf8_encode id; lines ← encodings ids; ok (line ∷ lines)

last_level-append : (ls : List (List Bytes)) (t : List Bytes) → last_level (ls ++ t ∷ []) ≡ ok t
unfolding last_level
last_level-append [] t = refl
last_level-append (l ∷ []) t = refl
last_level-append (l ∷ m ∷ ls) t = last_level-append (m ∷ ls) t

pub length-encodings :
    (ids : List Str) (lines : List Bytes) → encodings ids ≡ ok lines → length lines ≡ length ids
unfolding encodings
length-encodings [] lines h = cc
length-encodings (id ∷ ids) lines h =
    let (line, _, h1) = >>=-eq-ok (utf8_encode id) _ h in
    let (rest, r, h2) = >>=-eq-ok (encodings ids) _ h1 in
    let e : line ∷ rest ≡ lines = cc in rw (sym e) (ap suc (length-encodings ids rest r))

pub encoding_at :
    (ids : List Str) (lines : List Bytes) (i : ℕ) (id : Str)
    → encodings ids ≡ ok lines
    → get_elem? ids i ≡ some id
    → (line : Bytes) × (utf8_encode id ≡ ok line) × (get_elem? lines i ≡ some line)
unfolding encodings
encoding_at [] lines i id h e = cc
encoding_at (x ∷ ids) lines zero id h e =
    let (line, l, h1) = >>=-eq-ok (utf8_encode x) _ h in
    let (rest, r, h2) = >>=-eq-ok (encodings ids) _ h1 in
    let head : x ≡ id = cc in
    let parts : lines ≡ line ∷ rest = cc in (line, rw (sym head) l, ap (λ ls. get_elem? ls 0) parts)
encoding_at (x ∷ ids) lines (suc i) id h e =
    let (line, _, h1) = >>=-eq-ok (utf8_encode x) _ h in
    let (rest, r, h2) = >>=-eq-ok (encodings ids) _ h1 in
    let parts : lines ≡ line ∷ rest = cc in
    let (found, f, at_i) = encoding_at ids rest i id r e in
    (found, f, ap (λ ls. get_elem? ls (suc i)) parts ∙ at_i)

module _ (sha : Sha256) where
  unfoldable pub leaf_hash : Str → Result Bytes
  leaf_hash evidence_id = do encoded ← utf8_encode evidence_id; ok (sha.digest (0 ∷ encoded))

  -- [leaf_hash(evidence_id) for evidence_id in evidence_ids]
  unfoldable pub leaf_hashes : List Str → Result (List Bytes)
  leaf_hashes [] = ok []
  leaf_hashes (evidence_id ∷ evidence_ids) = do
    leaf ← leaf_hash evidence_id
    leaves ← leaf_hashes evidence_ids
    ok (leaf ∷ leaves)

  unfoldable pub build_levels : List Str → Result (List (List Bytes))
  build_levels [] = ok ((sha.digest [] ∷ []) ∷ [])
  build_levels (evidence_id ∷ evidence_ids) = do
    leaves ← leaf_hashes (evidence_id ∷ evidence_ids)
    grow_levels sha (suc (length evidence_ids)) leaves

  unfoldable pub merkle_root : List Str → Result Bytes
  merkle_root evidence_ids = do
    levels ← build_levels evidence_ids
    level ← last_level levels
    first_node level

  unfoldable pub merkle_proof : List Str → ℤ → Result (List (Bytes × Str))
  merkle_proof evidence_ids (negsuc i) = err index_error
  merkle_proof evidence_ids (pos index) = do
    raise_if (leb (length evidence_ids) index) index_error
    levels ← build_levels evidence_ids
    proof_steps (drop_last levels) index

  unfoldable pub verify_merkle_proof : Str → List (Bytes × Str) → Bytes → Result Bool
  verify_merkle_proof evidence_id proof expected_root = do
    raise_if (not (length expected_root == 32)) value_error
    leaf ← leaf_hash evidence_id
    current ← climb sha leaf proof
    ok (same current expected_root)

  leaf_hashes-eq-encodings :
      (ids : List Str)
      → leaf_hashes ids ≡ (do lines ← encodings ids; ok (map (export_leaf_hash sha) lines))
  unfolding leaf_hashes leaf_hash encodings export_leaf_hash
  leaf_hashes-eq-encodings [] = refl
  leaf_hashes-eq-encodings (id ∷ ids) = ground (arith, leaf_hashes-eq-encodings ids)

  grow_export_levels :
      (n : ℕ) (call : Result (List Bytes))
      → ((lines : List Bytes) → call ≡ ok lines → length lines ≡ suc n)
      → (do
        leaves ← (do lines ← call; ok (map (export_leaf_hash sha) lines))
        grow_levels sha (suc n) leaves)
        ≡ call >>= build_export_levels sha
  unfolding build_export_levels
  grow_export_levels n (err e) size = refl
  grow_export_levels n (ok []) size = absurd (omega (arith, size [] refl))
  grow_export_levels n (ok (line ∷ lines)) size =
      let e : n ≡ length lines = omega (arith, size (line ∷ lines) refl) in rw e refl

  build_levels-eq-build_export_levels :
      (ids : List Str)
      → build_levels ids ≡ (do lines ← encodings ids; build_export_levels sha lines)
  unfolding build_levels build_export_levels
  build_levels-eq-build_export_levels [] = unfold encodings in refl
  build_levels-eq-build_export_levels (id ∷ ids) =
      rw (leaf_hashes-eq-encodings (id ∷ ids))
        (grow_export_levels (length ids) (encodings (id ∷ ids)) (length-encodings (id ∷ ids)))

  -- The root of the levels is the root that `export_merkle_root` computes.
  top_of_levels :
      (lines : List Bytes)
      → (do levels ← build_export_levels sha lines; level ← last_level levels; first_node level)
        ≡ export_merkle_root sha lines
  unfolding build_export_levels export_merkle_root
  top_of_levels [] = unfold last_level first_node in refl
  top_of_levels (line ∷ lines) =
      let leaves = leaves-IsHash sha (line ∷ lines) in
      rw
        (
          grow_levels-eq-tower sha (suc (length lines)) (map (export_leaf_hash sha) (line ∷ lines))
              leaves (omega arith) (omega (arith, length-map (export_leaf_hash sha) lines)),
          reduce_level-eq-peak sha (suc (length lines)) (map (export_leaf_hash sha) (line ∷ lines))
              leaves (omega arith) (omega (arith, length-map (export_leaf_hash sha) lines)),
        )
        (ap (λ r. r >>= first_node) (last_level-append _ _))

  pub merkle_proof-eq-export_merkle_proof :
      (ids : List Str) (lines : List Bytes) (index : ℤ)
      → encodings ids ≡ ok lines
      → merkle_proof ids index ≡ export_merkle_proof sha lines index
  unfolding merkle_proof export_merkle_proof
  merkle_proof-eq-export_merkle_proof ids lines (negsuc i) h = refl
  merkle_proof-eq-export_merkle_proof ids lines (pos i) h =
      rw (length-encodings ids lines h, build_levels-eq-build_export_levels ids, h) refl

  pub verify_merkle_proof-eq-verify_export_merkle_proof :
      (id : Str) (line : Bytes) (proof : List (Bytes × Str)) (root : Bytes)
      → utf8_encode id ≡ ok line
      → verify_merkle_proof id proof root ≡ verify_export_merkle_proof sha line proof root
  unfolding verify_merkle_proof verify_export_merkle_proof leaf_hash export_leaf_hash
  verify_merkle_proof-eq-verify_export_merkle_proof id line proof root h = rw h refl

  -- The root over evidence identifiers is the export root over their UTF-8 encodings, and the
  -- error is that of the first identifier that has no encoding.
  pub merkle_root-eq-export_merkle_root :
      (ids : List Str) → merkle_root ids ≡ (do lines ← encodings ids; export_merkle_root sha lines)
  unfolding merkle_root
  merkle_root-eq-export_merkle_root ids =
      rw (build_levels-eq-build_export_levels ids) (each_top (encodings ids))
    where
      each_top :
          (call : Result (List Bytes))
          → (do
            levels ← call >>= build_export_levels sha
            level ← last_level levels
            first_node level)
            ≡ call >>= export_merkle_root sha
      each_top (err e) = refl
      each_top (ok lines) = top_of_levels lines

  -- If every evidence identifier of a list has an UTF-8 encoding, the proof that `merkle_proof`
  -- makes for one of them is accepted under the list's root; no function raises.
  pub verify-merkle_proof :
      (ids : List Str) (lines : List Bytes) (i : ℕ) (id : Str)
      → encodings ids ≡ ok lines
      → get_elem? ids i ≡ some id
      → (do
        proof ← merkle_proof ids (pos i)
        root ← merkle_root ids
        verify_merkle_proof id proof root)
        ≡ ok true
  verify-merkle_proof ids lines i id h e =
      let (line, l, at_i) = encoding_at ids lines i id h e in
      let (proof, p, h1) =
        >>=-eq-ok (export_merkle_proof sha lines (pos i)) _
          (verify-export_merkle_proof sha lines i line at_i) in
      let (root, r, h2) = >>=-eq-ok (export_merkle_root sha lines) _ h1 in
      rw
        (
          merkle_proof-eq-export_merkle_proof ids lines (pos i) h,
          merkle_root-eq-export_merkle_root ids,
          h,
          p,
          r,
          verify_merkle_proof-eq-verify_export_merkle_proof id line proof root l,
        )
        h2
