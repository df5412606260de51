-- ===== src/Merkle/Evidence/Binding.antt =====
-- What an accepted Merkle v1 proof shows of an evidence identifier.
use tc_ledger.Prelude.{ℕ, ◌≡◌, ◌⊎◌, inl, inr, sym, ◌∙◌, ap, true, List, some, get_elem?, length}
use tc_ledger.Py.Result.{ok, ◌>>=◌}
use tc_ledger.Py.Int.{pos}
use tc_ledger.Py.Str.{Str, Bytes}
use tc_ledger.Py.Utf8.{utf8_encode}
use tc_ledger.Py.Utf8.Injective.{utf8_encode-injective}
use tc_ledger.Merkle.Hash.{Sha256, CollisionIn}
use tc_ledger.Merkle.Levels.{export_merkle_root}
use tc_ledger.Merkle.Proof.{expected_proof_directions}
use tc_ledger.Merkle.Directions.{positions}
use tc_ledger.Merkle.Binding.{hashed, verify_export_merkle_proof-binding}
use tc_ledger.Merkle.Inclusion.{path_of}
use tc_ledger.Merkle.Evidence.{
  encodings, encoding_at, length-encodings, merkle_root, verify_merkle_proof,
  merkle_root-eq-export_merkle_root, verify_merkle_proof-eq-verify_export_merkle_proof,
}

module _ (sha : Sha256) where
  -- If `verify_merkle_proof` accepts an evidence identifier under the root of a list of
  -- identifiers, with a proof whose directions are those of an index of the list, then it is the
  -- identifier at that index, or SHA-256 has a collision between what this verification hashes and
  -- what the path of the identifier at that index hashes: different inputs, at one height, with one
  -- digest.
  pub verify_merkle_proof-binding :
      (ids : List Str) (lines : List Bytes) (i : ℕ) (id other : Str) (encoded root : Bytes)
      (proof : List (Bytes × Str))
      → encodings ids ≡ ok lines
      → get_elem? ids i ≡ some id
      → utf8_encode other ≡ ok encoded
      → merkle_root sha ids ≡ ok root
      → expected_proof_directions (pos (length ids)) (pos i) ≡ ok (positions proof)
      → verify_merkle_proof sha other proof root ≡ ok true
      → (line : Bytes) × (utf8_encode id ≡ ok line)
        × ((other ≡ id)
            ⊎ CollisionIn sha (hashed sha encoded proof) (hashed sha line (path_of sha lines i)))
  verify_merkle_proof-binding ids lines i id other encoded root proof all_encoded at_i other_encoded
        rooted shape accepted =
      let (line, l, line_at_i) = encoding_at ids lines i id all_encoded at_i in
      let export_rooted : export_merkle_root sha lines ≡ ok root =
        sym (
          merkle_root-eq-export_merkle_root sha ids
          ∙ ap (λ call. call >>= export_merkle_root sha) all_encoded)
        ∙ rooted in
      let export_shape : expected_proof_directions (pos (length lines)) (pos i)
          ≡ ok (positions proof) =
        ap (λ n. expected_proof_directions (pos n) (pos i)) (length-encodings ids lines all_encoded)
        ∙ shape in
      (
        line,
        l,
        elim (verify_export_merkle_proof-binding sha lines i line encoded root proof line_at_i
            export_rooted export_shape
            (sym (
                verify_merkle_proof-eq-verify_export_merkle_proof sha other encoded proof root
                  other_encoded)
              ∙ accepted)) [
                | inl same_line ↦ inl (
                    utf8_encode-injective other id encoded other_encoded
                      (l ∙ ap ok (sym same_line)))
                | inr collision ↦ inr collision
              ],
      )
