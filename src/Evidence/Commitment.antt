-- ===== src/Evidence/Commitment.antt =====
-- `evidence_commitment` of src/tc_ledger/ledger.py. `jcs.canonicalize` is a parameter.
use tc_ledger.Prelude.{◌≡◌, ◌≢◌, ◌⊎◌, inl, inr, sym, ◌∙◌, ap, not, List, [], ◌∷◌, ◌++◌, drop}
use tc_ledger.Py.Result.{Result, ok, malformed_record, raise_if, ok_value, >>=-eq-ok, ◌>>=◌, ◌>>◌}
use tc_ledger.Py.Int.{pos}
use tc_ledger.Py.Str.{Str, Bytes, codes, same}
use tc_ledger.Py.Hex.{hex, fromhex, fromhex-hex}
use tc_ledger.Py.Json.{Fields, int, str, field, end, get}
use tc_ledger.Merkle.Hash.{Sha256, Bytes-discrete}
use tc_ledger.Artifact.Consistency.{has_char, has_keys}

abbrev pub evidence_keys : List Str
evidence_keys =
    codes "seq" ∷ codes "ts" ∷ codes "from" ∷ codes "text" ∷ codes "nonce" ∷ codes "sig" ∷ []

abbrev pub payload : Fields → Str → Fields
payload record_fields room = field (codes "version") (int (pos 1)) (
    field (codes "room") (str room) (
      field (codes "seq") (get record_fields (codes "seq")) (
        field (codes "ts") (get record_fields (codes "ts")) (
          field (codes "from") (get record_fields (codes "from")) (
            field (codes "text") (get record_fields (codes "text")) (
              field (codes "nonce") (get record_fields (codes "nonce"))
                (field (codes "sig") (get record_fields (codes "sig")) end)))))))

module _ (sha : Sha256) (canonicalize : Fields → Result Bytes) where
  unfoldable pub evidence_commitment : Fields → Str → Result Str
  evidence_commitment record_fields room = do
    raise_if (same room []) malformed_record
    raise_if (has_char 0x7c room) malformed_record
    raise_if (not (has_keys record_fields evidence_keys)) malformed_record
    canonical ← canonicalize (payload record_fields room)
    ok (codes "tc-ledger:v1:" ++ hex (sha.digest canonical))

  commitment_digest :
      (fields : Fields) (room id : Str)
      → evidence_commitment fields room ≡ ok id
      → (canonical : Bytes) × (canonicalize (payload fields room) ≡ ok canonical)
        × (ok (sha.digest canonical) ≡ fromhex (drop 13 id))
  unfolding evidence_commitment
  commitment_digest fields room id h =
      let (_, _, h1) = >>=-eq-ok (raise_if (same room []) malformed_record) _ h in
      let (_, _, h2) = >>=-eq-ok (raise_if (has_char 0x7c room) malformed_record) _ h1 in
      let (_, _, h3) =
        >>=-eq-ok (raise_if (not (has_keys fields evidence_keys)) malformed_record) _ h2 in
      let (canonical, c, h4) = >>=-eq-ok (canonicalize (payload fields room)) _ h3 in
      (
        canonical,
        c,
        sym (fromhex-hex (sha.digest canonical) (sha.digest_bytes canonical))
            ∙ ap (λ s. fromhex (drop 13 s)) (ok_value h4),
      )

  -- If `evidence_commitment` gives two records in two rooms the same identifier, then their payloads
  -- have canonical forms, and these are equal, or are themselves a collision of SHA-256.
  pub evidence_commitment-binding :
      (fields fields' : Fields) (room room' id : Str)
      → evidence_commitment fields room ≡ ok id
      → evidence_commitment fields' room' ≡ ok id
      → (canonical canonical' : Bytes) × (canonicalize (payload fields room) ≡ ok canonical)
        × (canonicalize (payload fields' room') ≡ ok canonical')
        × ((canonical ≡ canonical')
            ⊎ ((canonical ≢ canonical') × (sha.digest canonical ≡ sha.digest canonical')))
  evidence_commitment-binding fields fields' room room' id h h' =
      let (c, made, d) = commitment_digest fields room id h in
      let (c', made', d') = commitment_digest fields' room' id h' in
      let same_digest : sha.digest c ≡ sha.digest c' = ok_value (d ∙ sym d') in
      (
        c,
        c',
        made,
        made',
        elim (Bytes-discrete c c') [ yes e ↦ inl e | no n ↦ inr (n, same_digest) ],
      )
