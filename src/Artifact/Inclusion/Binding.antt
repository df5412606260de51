-- ===== src/Artifact/Inclusion/Binding.antt =====
-- What an accepted inclusion proof artifact shows.
use mathlib.Core.Path.{subst₂}
use tc_ledger.Prelude.{
  ℕ, ◌≡◌, ◌⊎◌, inl, inr, subst, sym, ◌∙◌, ap, Bool, true, not, ◌&&◌, Option, some, List, [], ◌∷◌,
  ◌==◌, ==→eq, length, get_elem?, arith,
}
use tc_ledger.Py.Result.{ok}
use tc_ledger.Py.Int.{ℤ, pos, int_le}
use tc_ledger.Py.Str.{Str, Bytes, raw, codes, same, same→eq}
use tc_ledger.Py.Hex.{fromhex}
use tc_ledger.Py.Check.{
  pass, require, demand, lift, attempt, verdict-eq-true, after, require_inversion, demand_inversion,
  attempt_inversion, lift_inversion,
}
use tc_ledger.Py.Json.{
  Json, Fields, dict, get, int, as_dict, as_str, as_list, as_strict_int, equals_int, equals_str,
  anchor_str, anchor_int,
}
use tc_ledger.Merkle.Hash.{Sha256, CollisionIn, export_leaf_hash}
use tc_ledger.Merkle.Levels.{export_merkle_root}
use tc_ledger.Merkle.Proof.{expected_proof_directions, verify_export_merkle_proof}
use tc_ledger.Merkle.Directions.{positions}
use tc_ledger.Merkle.Inclusion.{path_of}
use tc_ledger.Merkle.Binding.{directions_of-path_of, hashed, verify_export_merkle_proof-binding}
use tc_ledger.Artifact.Inclusion.{
  check_generation, read_audit_path, check_expected_root, line_bytes, check_inclusion,
  check_inclusion_artifact, verify_export_inclusion_proof,
}

-- The path that is read has the expected directions.
read_audit_path-positions :
    (items : List Json) (directions : List Str) (proof : List (Bytes × Str))
    → length items ≡ length directions
    → read_audit_path items directions ≡ pass proof
    → positions proof ≡ directions
unfolding read_audit_path
read_audit_path-positions [] [] proof n h = cc
read_audit_path-positions [] (d ∷ directions) proof n h = absurd (omega arith)
read_audit_path-positions (item ∷ items) [] proof n h = absurd (omega arith)
read_audit_path-positions (item ∷ items) (d ∷ directions) proof n h =
    let ih = read_audit_path-positions items directions in
    after (demand (as_dict item)) _ h λ fields _ h1.
      after (require (equals_str (get fields (codes "position")) d)) _ h1 λ _ _ h2.
        after (demand (as_str (get fields (codes "sibling_hash")))) _ h2 λ s _ h3.
          after (attempt (fromhex s)) _ h3 λ b _ h4. after (require (length b == 32)) _ h4 λ _ _ h5.
            after (read_audit_path items directions) _ h5 λ rest r h6.
              let e : proof ≡ (b, d) ∷ rest = cc in rw e (ap (λ t. d ∷ t) (ih rest (omega arith) r))

-- The integer that is read from a field that holds one.
read_int : {m n : ℤ} (j : Json) → j ≡ int m → demand (as_strict_int j) ≡ pass n → n ≡ m
read_int j e h = ground (arith, e, h)

module _ (sha : Sha256) where
  -- The bytes are the line, or what is hashed to verify the artifact's audit path for the bytes
  -- collides with what the line's own path hashes.
  abbrev pub IsLineOrCollides : Bytes → Bytes → Fields → List (Bytes × Str) → Type 0
  IsLineOrCollides bytes line artifact path =
      (bytes ≡ line)
      ⊎ ((items : List Json) × (proof : List (Bytes × Str)) × (as_list
              (get artifact (codes "audit_path"))
            ≡ some items)
          × (read_audit_path items (positions path) ≡ pass proof)
          × CollisionIn sha (hashed sha bytes proof) (hashed sha line path))

  -- The checks on an artifact with the root of the export as trust anchor.
  check_inclusion-binding :
      (lines : List Bytes) (i : ℕ) (line : Bytes) (bytes root : Bytes) (artifact : Fields)
      → get_elem? lines i ≡ some line
      → export_merkle_root sha lines ≡ ok root
      → check_inclusion sha bytes artifact (pos (length lines)) (pos i) (some (raw root)) ≡ pass tt
      → IsLineOrCollides bytes line artifact (path_of sha lines i)
  unfolding check_inclusion check_expected_root
  check_inclusion-binding lines i line bytes root artifact at_i rooted h =
      after (demand (as_str (get artifact (codes "leaf_hash")))) _ h λ leaf_hex _ h1.
        after (demand (as_str (get artifact (codes "export_root")))) _ h1 λ root_hex _ h2.
          after (demand (as_list (get artifact (codes "audit_path")))) _ h2 λ audit_path al h3.
            after (attempt (fromhex leaf_hex)) _ h3 λ leaf _ h4.
              after (attempt (fromhex root_hex)) _ h4 λ artifact_root _ h5.
                after (require (length leaf == 32 && length artifact_root == 32)) _ h5 λ _ _ h6.
                  after (require (same (export_leaf_hash sha bytes) leaf)) _ h6 λ _ _ h7.
                    after (attempt (expected_proof_directions (pos (length lines)) (pos i))) _ h7
                      λ dirs d h8. after (require (length audit_path == length dirs)) _ h8 λ _ n h9.
                        after (read_audit_path audit_path dirs) _ h9 λ proof p h10.
                          after (lift (verify_export_merkle_proof sha bytes proof artifact_root)) _
                            h10
                            λ accepted v h11. after (require accepted) _ h11 λ _ t h12.
                              after (require (length root == 32)) _ h12 λ _ _ h13.
                                conclude dirs audit_path proof artifact_root accepted
                                  (demand_inversion _ al) (attempt_inversion _ d)
                                  (==→eq _ _ (require_inversion _ n)) p (lift_inversion _ v)
                                  (require_inversion _ t)
                                  (same→eq artifact_root root (require_inversion _ h13))
    where
      conclude :
          (dirs : List Str) (audit_path : List Json) (proof : List (Bytes × Str))
          (artifact_root : Bytes) (accepted : Bool)
          → as_list (get artifact (codes "audit_path")) ≡ some audit_path
          → expected_proof_directions (pos (length lines)) (pos i) ≡ ok dirs
          → length audit_path ≡ length dirs
          → read_audit_path audit_path dirs ≡ pass proof
          → verify_export_merkle_proof sha bytes proof artifact_root ≡ ok accepted
          → accepted ≡ true
          → artifact_root ≡ root
          → IsLineOrCollides bytes line artifact (path_of sha lines i)
      conclude dirs audit_path proof artifact_root accepted listed d n p v t same_root =
          let shape : expected_proof_directions (pos (length lines)) (pos i)
              ≡ ok (positions proof) =
            d ∙ ap ok (sym (read_audit_path-positions audit_path dirs proof n p)) in
          let checked : verify_export_merkle_proof sha bytes proof root ≡ ok true = cc in
          let directed = read_audit_path-positions audit_path dirs proof n p in
          let own = directions_of-path_of sha lines i line dirs at_i d in
          elim (verify_export_merkle_proof-binding sha lines i line bytes root proof at_i rooted
            shape checked) [
              | inl e ↦ inl e
              | inr c ↦ inr (
                audit_path,
                proof,
                listed,
                subst (λ t. read_audit_path audit_path t ≡ pass proof) own p,
                c,
              )
            ]

  -- If `verify_export_inclusion_proof` accepts an artifact for some bytes with the root of an export
  -- as trust anchor, and the artifact's tree size is that of the export, then the bytes are the
  -- line of the export at the artifact's leaf index, or SHA-256 has a collision between what is
  -- hashed to verify the artifact's audit path for the bytes and what the line's own path hashes:
  -- different inputs, at one height, with one digest.
  pub verify_export_inclusion_proof-binding :
      (lines : List Bytes) (i : ℕ) (line bytes root : Bytes) (artifact : Fields)
      (generation : Option ℤ) (room : Option Str)
      → get_elem? lines i ≡ some line
      → export_merkle_root sha lines ≡ ok root
      → get artifact (codes "tree_size") ≡ int (pos (length lines))
      → get artifact (codes "leaf_index") ≡ int (pos i)
      → verify_export_inclusion_proof sha
          (raw bytes)
          (dict artifact)
          (some (raw root))
          generation
          room
        ≡ ok true
      → IsLineOrCollides bytes line artifact (path_of sha lines i)
  unfolding verify_export_inclusion_proof check_inclusion_artifact line_bytes
  verify_export_inclusion_proof-binding lines i line bytes root artifact generation room at_i rooted
        size index h =
      after (require (equals_int (get artifact (codes "version")) (pos 1))) _ (verdict-eq-true _ h)
        λ _ _ h1.
          after (require (equals_str (get artifact (codes "profile")) (codes "tc-ledger/1"))) _ h1
            λ _ _ h2. after (demand (as_str (get artifact (codes "room")))) _ h2 λ name _ h3.
              after (require (not (same name []))) _ h3 λ _ _ h4.
                after (require (anchor_str room name)) _ h4 λ _ _ h5.
                  after (demand (as_strict_int (get artifact (codes "leaf_index")))) _ h5
                    λ leaf_index l h6.
                      after (demand (as_strict_int (get artifact (codes "tree_size")))) _ h6
                        λ tree_size t h7.
                          after
                            (require (
                              int_le (pos 1) tree_size
                              && int_le (pos 0) leaf_index
                              && not (int_le tree_size leaf_index)))
                            _ h7
                            λ _ _ h8.
                              after (check_generation (get artifact (codes "export_generation"))) _
                                h8
                                λ _ _ h9.
                                  after
                                    (require (
                                      anchor_int generation
                                        (get artifact (codes "export_generation"))))
                                    _ h9
                                    λ _ _ h10.
                                      check_inclusion-binding lines i line bytes root artifact at_i
                                        rooted
                                        (subst₂
                                          (λ x y.
                                            check_inclusion sha bytes artifact x y (some (raw root))
                                            ≡ pass tt)
                                          (read_int (get artifact (codes "tree_size")) size t)
                                          (read_int (get artifact (codes "leaf_index")) index l)
                                          h10)
