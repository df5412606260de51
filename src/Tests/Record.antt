-- ===== src/Tests/Record.antt =====
-- A signed record, with stand-ins for Base58 and Ed25519.
use tc_ledger.Prelude.{ℕ, zero, suc, ◌≡◌, refl, Bool, false, List, [], ◌∷◌, ◌++◌, take}
use tc_ledger.Py.Result.{Result, ok, err, unicode_encode_error}
use tc_ledger.Py.Int.{pos}
use tc_ledger.Py.Str.{Str, Bytes, codes, same}
use tc_ledger.Py.Utf8.{encode_char, utf8_encode}
use tc_ledger.Py.Json.{Fields, int, str, field, end}
use tc_ledger.Py.Text.{decimal, decimal_from}
use tc_ledger.Record.Text.{rstrip_padding, sextet, b64decode, base64url_char, urlsafe_b64encode}
use tc_ledger.Record.Did.{public_key_from_did}
use tc_ledger.Record.Signed.{
  valid, nonce_text, decode_signature, verify_signature, verify_signed_record,
}
use tc_ledger.Record.Valid.{
  SignedIn, decode_signature-injective, verify_signed_record-SignedIn, canonical_text-injective,
}
use tc_ledger.Artifact.Consistency.{has_char}

abbrev copies : ℕ → ℕ → List ℕ
copies zero c = []
copies (suc n) c = c ∷ copies n c

-- In the place of `base58.b58decode`: a fixed key.
abbrev pub toy_decode : Str → Result Bytes
toy_decode s = ok (0xed ∷ 0x01 ∷ copies 32 5)

-- In the place of Ed25519: the first byte of a signature is that of the key, and the second is that
-- of the message.
abbrev pub toy_verify : Bytes → Bytes → Bytes → Bool
toy_verify key message signature = same (take 1 key ++ take 1 message) (take 2 signature)

-- 64 bytes: 5, the code of `r`, and zeros.
abbrev signature : Bytes
signature = 5 ∷ 0x72 ∷ copies 62 0

abbrev signature_text : Str
signature_text = codes "BXI" ++ copies 83 0x41

signature_decodes : decode_signature signature_text ≡ ok signature
unfolding decode_signature rstrip_padding sextet b64decode base64url_char urlsafe_b64encode
signature_decodes = refl

padded_decodes : decode_signature (signature_text ++ codes "==") ≡ ok signature
unfolding decode_signature rstrip_padding sextet b64decode base64url_char urlsafe_b64encode
padded_decodes = refl

decode_signature-injective_example :
    rstrip_padding signature_text ≡ rstrip_padding (signature_text ++ codes "==")
decode_signature-injective_example =
    decode_signature-injective signature_text (signature_text ++ codes "==") signature
      signature_decodes padded_decodes

abbrev pub record_fields : Fields
record_fields = field (codes "seq") (int (pos 1)) (
    field (codes "ts") (int (pos 0)) (
      field (codes "from") (str (codes "did:key:z6M")) (
        field (codes "text") (str (codes "hi"))
          (field (codes "nonce") (int (pos 12)) (field (codes "sig") (str signature_text) end)))))

record_verified :
    verify_signed_record toy_decode toy_verify record_fields (codes "r")
    ≡ ok (record { seq = int (pos 1); status = valid })
unfolding verify_signed_record verify_signature nonce_text decimal decimal_from public_key_from_did
    decode_signature rstrip_padding sextet b64decode base64url_char urlsafe_b64encode utf8_encode
    encode_char
record_verified = refl

verify_signed_record-SignedIn_example :
    SignedIn toy_decode toy_verify (codes "r") record_fields
    × (has_char 0x7c (codes "r") ≡ false)
    × (same (codes "r") [] ≡ false)
verify_signed_record-SignedIn_example =
    verify_signed_record-SignedIn toy_decode toy_verify record_fields (codes "r") (int (pos 1))
      record_verified

nonce_12 : nonce_text (int (pos 12)) ≡ ok (codes "12")
unfolding nonce_text decimal decimal_from
nonce_12 = refl

nonce_12_text : nonce_text (str (codes "12")) ≡ ok (codes "12")
unfolding nonce_text
nonce_12_text = refl

canonical_encodes : utf8_encode (codes "r|12|h|i") ≡ ok (codes "r|12|h|i")
unfolding utf8_encode encode_char
canonical_encodes = refl

canonical_text-injective_example :
    (codes "r" ≡ codes "r") × (codes "12" ≡ codes "12") × (codes "h|i" ≡ codes "h|i")
canonical_text-injective_example =
    canonical_text-injective (codes "r") (codes "r") (codes "12") (codes "12") (codes "h|i")
      (codes "h|i") (int (pos 12)) (str (codes "12")) (codes "r|12|h|i") refl refl nonce_12
      nonce_12_text canonical_encodes canonical_encodes

-- A text with a lone surrogate, which JSON can escape, has no UTF-8 encoding.
abbrev surrogate_fields : Fields
surrogate_fields = field (codes "seq") (int (pos 1)) (
    field (codes "ts") (int (pos 0)) (
      field (codes "from") (str (codes "did:key:z6M")) (
        field (codes "text") (str (0xd800 ∷ []))
          (field (codes "nonce") (int (pos 12)) (field (codes "sig") (str signature_text) end)))))

surrogate_text_raises :
    verify_signed_record toy_decode toy_verify surrogate_fields (codes "r")
    ≡ err unicode_encode_error
unfolding verify_signed_record verify_signature nonce_text decimal decimal_from public_key_from_did
    decode_signature rstrip_padding sextet b64decode base64url_char urlsafe_b64encode utf8_encode
    encode_char
surrogate_text_raises = refl
