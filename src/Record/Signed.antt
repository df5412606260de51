-- ===== src/Record/Signed.antt =====
-- `verify_signed_record` of src/tc_ledger/ledger.py. `base58.b58decode` and the Ed25519 verification
-- of PyNaCl are parameters: `verify key message signature` says that no BadSignatureError is raised.
use tc_ledger.Prelude.{
  Bool, true, false, not, ◌&&◌, ◌||◌, [], ◌∷◌, ◌++◌, ◌==◌, ltb, leb, if◌then◌else◌, length, take,
  drop,
}
use tc_ledger.Py.Result.{
  Result, ok, err, malformed_record, invalid_signature, raise_if, ◌>>=◌, ◌>>◌,
}
use tc_ledger.Py.Int.{pos}
use tc_ledger.Py.Str.{Str, Bytes, codes, same}
use tc_ledger.Py.Utf8.{utf8_encode}
use tc_ledger.Py.Json.{Json, Fields, bool, int, str, get, has_key}
use tc_ledger.Py.Text.{all_chars, is_digit, decimal}
use tc_ledger.Record.Text.{is_base64url, rstrip_padding, replace_char, b64decode, urlsafe_b64encode}
use tc_ledger.Record.Did.{public_key_from_did}
use tc_ledger.Artifact.Consistency.{has_char, has_keys}

pub data Status : Type 0 where
  valid unsigned : Status

pub record VerificationResult : Type 0 where
  pub seq : Json
  pub status : Status

abbrev pub str_or_malformed : Json → Result Str
str_or_malformed (str s) = ok s
str_or_malformed _ = err malformed_record

-- isinstance(x, int), where a bool is an int.
abbrev pub is_int : Json → Bool
is_int (int n) = true
is_int (bool b) = true
is_int _ = false

-- The checks on the nonce, and how it is written into the signed text.
unfoldable pub nonce_text : Json → Result Str
nonce_text (int (pos n)) = do
  raise_if (ltb 19 (length (decimal n))) malformed_record
  ok (decimal n)
nonce_text (str s) = do
  raise_if (not (leb 1 (length s) && leb (length s) 19 && all_chars is_digit s)) malformed_record
  ok s
nonce_text _ = err malformed_record

-- re.fullmatch(r"[A-Za-z0-9_-]{86}(?:==)?", s)
abbrev pub is_signature_text : Str → Bool
is_signature_text s =
    all_chars is_base64url (take 86 s)
    && (length s == 86 || (length s == 88 && same (drop 86 s) (codes "==")))

-- except Exception: raise MalformedRecord
abbrev pub every_error_malformed : Result Bytes → Result Bytes
every_error_malformed (ok b) = ok b
every_error_malformed (err e) = err malformed_record

-- The signature's 64 bytes, from its only canonical text.
unfoldable pub decode_signature : Str → Result Bytes
decode_signature sig_str = do
  raise_if (not (is_signature_text sig_str)) malformed_record
  raise_if (not (length (rstrip_padding sig_str) == 86)) malformed_record
  signature ← every_error_malformed (
      b64decode
        (replace_char 0x5f 0x2f (replace_char 0x2d 0x2b (rstrip_padding sig_str ++ codes "=="))))
  raise_if (not (length signature == 64)) malformed_record
  raise_if (not (same (rstrip_padding (urlsafe_b64encode signature)) (rstrip_padding sig_str)))
      malformed_record
  ok signature

-- f"{room}|{nonce}|{record['text']}"
abbrev pub canonical_text : Str → Str → Str → Str
canonical_text room nonce message = room ++ (codes "|" ++ (nonce ++ (codes "|" ++ message)))

module _ (b58decode : Str → Result Bytes) (verify : Bytes → Bytes → Bytes → Bool) where
  -- The checks behind the presence of `sig`.
  unfoldable pub verify_signature : Fields → Str → Result VerificationResult
  verify_signature record_fields room = do
    raise_if (not (has_key record_fields (codes "nonce"))) malformed_record
    raise_if (not (is_int (get record_fields (codes "seq")))) malformed_record
    sender ← str_or_malformed (get record_fields (codes "from"))
    message ← str_or_malformed (get record_fields (codes "text"))
    nonce ← nonce_text (get record_fields (codes "nonce"))
    sig_str ← str_or_malformed (get record_fields (codes "sig"))
    public_key ← public_key_from_did b58decode sender
    signature ← decode_signature sig_str
    canonical ← utf8_encode (canonical_text room nonce message)
    raise_if (not (verify public_key canonical signature)) invalid_signature
    ok (record { seq = get record_fields (codes "seq"); status = valid })

  unfoldable pub verify_signed_record : Fields → Str → Result VerificationResult
  verify_signed_record record_fields room = do
    raise_if (same room []) malformed_record
    raise_if (has_char 0x7c room) malformed_record
    raise_if
        (not (has_keys record_fields (codes "seq" ∷ codes "ts" ∷ codes "from" ∷ codes "text" ∷ [])))
        malformed_record
    if has_key record_fields (codes "sig")
        then verify_signature record_fields room
        else ok (record { seq = get record_fields (codes "seq"); status = unsigned })
