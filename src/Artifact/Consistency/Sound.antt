-- ===== src/Artifact/Consistency/Sound.antt =====
-- What builder and verifier of consistency proof artifacts promise.
use tc_ledger.Prelude.{
  ◌≡◌, refl, sym, ◌∙◌, ap, ap₂, Bool, true, false, not, ◌&&◌, &&_true, List, [], ◌∷◌, ◌++◌, map,
  ◌==◌, ltb, length, take, drop, take-append-drop,
}
use tc_ledger.Py.Result.{
  Result, ok, malformed_record, value_error, raise_if, raise_if_inversion, ok_value, >>=-eq-ok,
}
use tc_ledger.Py.Int.{ℤ, pos, is_negative, int_le}
use tc_ledger.Py.Str.{Str, Bytes, raw, codes, same, same→eq}
use tc_ledger.Py.Check.{
  pass, require, demand, lift, attempt, after, require_inversion, attempt_inversion, lift_inversion,
}
use tc_ledger.Py.Json.{
  Json, Fields, dict, int, get, as_str, as_int, as_list, equals_int, equals_str, anchor_int,
}
use tc_ledger.Merkle.Hash.{Sha256}
use tc_ledger.Merkle.Consistency.{verify_consistency_proof}
use tc_ledger.Artifact.Export.{fromhex_value}
use tc_ledger.Artifact.Consistency.{
  has_char, same_lines, required_keys, has_keys, read_nodes, strict_size, anchor_room, anchor_root,
  Anchors, Report, build_from_lines, build_consistency_proof_artifact, check_extension,
  verify_consistency_proof_artifact,
}

same_lines→eq : (xs ys : List Bytes) → same_lines xs ys ≡ true → xs ≡ ys
same_lines→eq [] [] h = refl
same_lines→eq [] (y ∷ ys) h = cc
same_lines→eq (x ∷ xs) [] h = cc
same_lines→eq (x ∷ xs) (y ∷ ys) h =
    let both = &&_true (same x y) (same_lines xs ys) h in
    ap₂ (λ a rest. a ∷ rest) (same→eq x y both.0) (same_lines→eq xs ys both.1)

strict_size-eq-int : (j : Json) {n : ℤ} → strict_size j ≡ ok n → j ≡ int n
strict_size-eq-int (int m) h = ap int (ok_value h)
strict_size-eq-int _ h = cc

unnegated : (b : Bool) → not b ≡ false → b ≡ true
unnegated true h = refl
unnegated false h = cc

module _ (sha : Sha256) where
  -- `build_from_lines` returns only for a prefix.
  build_from_lines-prefix :
      (old_lines new_lines : List Bytes) (room : Str) (og ng : ℤ) {artifact : Json}
      → build_from_lines sha old_lines new_lines room og ng ≡ ok artifact
      → (rest : List Bytes) × (new_lines ≡ old_lines ++ rest)
  unfolding build_from_lines
  build_from_lines-prefix old_lines new_lines room og ng h =
      let (_, _, h1) =
        >>=-eq-ok (raise_if (ltb (length new_lines) (length old_lines)) value_error) _ h in
      let (_, p, _) =
        >>=-eq-ok
          (raise_if (not (same_lines (take (length old_lines) new_lines) old_lines)) value_error) _
          h1 in
      let same_start =
        same_lines→eq (take (length old_lines) new_lines) old_lines
          (unnegated _ (raise_if_inversion _ _ p)) in
      (
        drop (length old_lines) new_lines,
        sym (take-append-drop (length old_lines) new_lines)
            ∙ ap (λ start. start ++ drop (length old_lines) new_lines) same_start,
      )

  -- If `build_consistency_proof_artifact` returns, then the lines of the old export are a prefix of
  -- those of the new one, the generations are in order and the room is named.
  pub build_consistency_proof_artifact-prefix :
      (read_lines : Str → Result (List Bytes)) (old_path new_path room : Str) (og ng : ℤ)
      (artifact : Json)
      → build_consistency_proof_artifact sha read_lines old_path new_path room og ng ≡ ok artifact
      → (old_lines new_lines rest : List Bytes) × (read_lines old_path ≡ ok old_lines)
        × (read_lines new_path ≡ ok new_lines)
        × (new_lines ≡ old_lines ++ rest)
        × (int_le og ng ≡ true)
        × (same room [] ≡ false)
  unfolding build_consistency_proof_artifact
  build_consistency_proof_artifact-prefix read_lines old_path new_path room og ng artifact h =
      let (_, named, h1) = >>=-eq-ok (raise_if (same room []) malformed_record) _ h in
      let (_, _, h2) = >>=-eq-ok (raise_if (has_char 0x7c room) malformed_record) _ h1 in
      let (_, _, h3) = >>=-eq-ok (raise_if (is_negative og) value_error) _ h2 in
      let (_, _, h4) = >>=-eq-ok (raise_if (is_negative ng) value_error) _ h3 in
      let (_, order, h5) = >>=-eq-ok (raise_if (not (int_le og ng)) value_error) _ h4 in
      let (old_lines, old_read, h6) = >>=-eq-ok (read_lines old_path) _ h5 in
      let (new_lines, new_read, h7) = >>=-eq-ok (read_lines new_path) _ h6 in
      let (rest, prefix) = build_from_lines-prefix old_lines new_lines room og ng h7 in
      (
        old_lines,
        new_lines,
        rest,
        old_read,
        new_read,
        prefix,
        unnegated _ (raise_if_inversion _ _ order),
        raise_if_inversion _ _ named,
      )

  -- What an artifact carries that passes the cryptographic check.
  abbrev pub Extends : Fields → Type 0
  Extends artifact =
      (m n : ℤ) × (old_root new_root : Bytes) × (proof : List Bytes) × (get artifact
          (codes "old_tree_size")
        ≡ int m)
      × (get artifact (codes "new_tree_size") ≡ int n)
      × (fromhex_value (get artifact (codes "old_root")) ≡ ok old_root)
      × (fromhex_value (get artifact (codes "new_root")) ≡ ok new_root)
      × (verify_consistency_proof sha m n (raw old_root) (raw new_root) (map raw proof) ≡ ok true)

  check_extension-Extends :
      (artifact : Fields) → check_extension sha artifact ≡ pass tt → Extends artifact
  unfolding check_extension
  check_extension-Extends artifact h =
      after (attempt (fromhex_value (get artifact (codes "old_root")))) _ h λ old_root o h1.
        after (attempt (fromhex_value (get artifact (codes "new_root")))) _ h1 λ new_root n h2.
          after (require (length old_root == 32 && length new_root == 32)) _ h2 λ _ _ h3.
            after (demand (as_list (get artifact (codes "proof")))) _ h3 λ items _ h4.
              after (read_nodes items) _ h4 λ proof _ h5.
                after (lift (strict_size (get artifact (codes "old_tree_size")))) _ h5
                  λ old_size os h6.
                    after (lift (strict_size (get artifact (codes "new_tree_size")))) _ h6
                      λ new_size ns h7.
                        after
                          (lift (
                            verify_consistency_proof sha old_size new_size (raw old_root)
                              (raw new_root) (map raw proof)))
                          _ h7
                          λ valid v h8. (
                            old_size,
                            new_size,
                            old_root,
                            new_root,
                            proof,
                            strict_size-eq-int _ (lift_inversion _ os),
                            strict_size-eq-int _ (lift_inversion _ ns),
                            attempt_inversion _ o,
                            attempt_inversion _ n,
                            lift_inversion _ v ∙ ap ok (require_inversion _ h8),
                          )

  -- An artifact that `verify_consistency_proof_artifact` reports as valid has integers as tree sizes
  -- and digests as roots, for which `verify_consistency_proof` accepts a proof; a tree size that
  -- the caller expects is the artifact's.
  pub verify_consistency_proof_artifact_sound :
      (lower : Str → Str) (artifact : Fields) (anchors : Anchors) (report : Report)
      → verify_consistency_proof_artifact sha lower (dict artifact) anchors ≡ pass report
      → Extends artifact
        × (anchor_int anchors.expected_old_tree_size (get artifact (codes "old_tree_size")) ≡ true)
        × (anchor_int anchors.expected_new_tree_size (get artifact (codes "new_tree_size")) ≡ true)
  unfolding verify_consistency_proof_artifact
  verify_consistency_proof_artifact_sound lower artifact anchors report h =
      after (require (has_keys artifact required_keys)) _ h λ _ _ h1.
        after (require (equals_int (get artifact (codes "version")) (pos 1))) _ h1 λ _ _ h2.
          after
            (require
              (equals_str (get artifact (codes "schema")) (codes "tc-ledger/consistency-proof/v1")))
            _ h2
            λ _ _ h3.
              after (require (equals_str (get artifact (codes "profile")) (codes "tc-ledger/1"))) _
                h3
                λ _ _ h4. after (demand (as_str (get artifact (codes "room")))) _ h4 λ room _ h5.
                  after (require (not (same room []))) _ h5 λ _ _ h6.
                    after (demand (as_int (get artifact (codes "old_generation")))) _ h6
                      λ old_gen _ h7. after (require (not (is_negative old_gen))) _ h7 λ _ _ h8.
                        after (demand (as_int (get artifact (codes "new_generation")))) _ h8
                          λ new_gen _ h9.
                            after (require (not (is_negative new_gen))) _ h9 λ _ _ h10.
                              after (require (int_le old_gen new_gen)) _ h10 λ _ _ h11.
                                after (demand (as_int (get artifact (codes "old_tree_size")))) _ h11
                                  λ old_size _ h12.
                                    after (require (not (is_negative old_size))) _ h12 λ _ _ h13.
                                      after (demand (as_int (get artifact (codes "new_tree_size"))))
                                        _ h13
                                        λ new_size _ h14.
                                          after (require (not (is_negative new_size))) _ h14
                                            λ _ _ h15.
                                              after (require (int_le old_size new_size)) _ h15
                                                λ _ _ h16.
                                                  after
                                                    (require
                                                      (anchor_room anchors.expected_room room))
                                                    _ h16
                                                    λ _ _ h17.
                                                      after
                                                        (require (
                                                          anchor_int anchors.expected_old_generation
                                                            (get artifact
                                                            (codes "old_generation"))))
                                                        _ h17
                                                        λ _ _ h18.
                                                          after
                                                            (require (
                                                            anchor_int
                                                            anchors.expected_new_generation
                                                            (get artifact
                                                            (codes "new_generation"))))
                                                            _ h18
                                                            λ _ _ h19.
                                                            after
                                                            (anchor_root lower
                                                            anchors.expected_old_root
                                                            (get artifact (codes "old_root")))
                                                            _ h19
                                                            λ _ _ h20.
                                                            after
                                                            (anchor_root lower
                                                            anchors.expected_new_root
                                                            (get artifact (codes "new_root")))
                                                            _ h20
                                                            λ _ _ h21.
                                                            after
                                                            (require (
                                                            anchor_int
                                                            anchors.expected_old_tree_size
                                                            (get artifact (codes "old_tree_size"))))
                                                            _ h21
                                                            λ _ old h22.
                                                            after
                                                            (require (
                                                            anchor_int
                                                            anchors.expected_new_tree_size
                                                            (get artifact (codes "new_tree_size"))))
                                                            _ h22
                                                            λ _ new h23.
                                                            after (check_extension sha artifact) _
                                                            h23
                                                            λ _ extends _. (
                                                            check_extension-Extends artifact
                                                            extends,
                                                            require_inversion _ old,
                                                            require_inversion _ new,
                                                            )
