-- ===== src/Record/Did.antt =====
-- `public_key_from_did` of src/tc_ledger/ledger.py. `base58.b58decode` is a parameter.
use tc_ledger.Prelude.{not, [], ◌∷◌, ◌==◌, ltb, length, take, drop}
use tc_ledger.Py.Result.{
  Result, ok, err, value_error, malformed_record, unsupported_key_type, raise_if, ◌>>=◌, ◌>>◌,
}
use tc_ledger.Py.Result.{Exception}
use tc_ledger.Py.Text.{starts_with}
use tc_ledger.Py.Str.{Str, Bytes, codes, same}

-- except ValueError: raise MalformedRecord; the Unicode and JSON errors are ValueErrors.
abbrev pub or_malformed : Result Bytes → Result Bytes
or_malformed (err value_error) = err malformed_record
or_malformed (err Exception.unicode_decode_error) = err malformed_record
or_malformed (err Exception.unicode_encode_error) = err malformed_record
or_malformed (err Exception.json_decode_error) = err malformed_record
or_malformed r = r

abbrev pub ed25519_multicodec : Bytes
ed25519_multicodec = 0xed ∷ 0x01 ∷ []

unfoldable pub public_key_from_did : (Str → Result Bytes) → Str → Result Bytes
public_key_from_did b58decode did = do
  raise_if (not (starts_with did (codes "did:key:"))) malformed_record
  raise_if (not (starts_with (drop 8 did) (codes "z"))) malformed_record
  decoded ← or_malformed (b58decode (drop 9 did))
  raise_if (ltb (length decoded) 2) malformed_record
  raise_if (not (same (take 2 decoded) ed25519_multicodec)) unsupported_key_type
  raise_if (not (length (drop 2 decoded) == 32)) malformed_record
  ok (drop 2 decoded)
