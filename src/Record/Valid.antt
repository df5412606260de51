-- ===== src/Record/Valid.antt =====
-- What a record that `verify_signed_record` calls VALID has: an accepted signature over its room, nonce
-- and text.
use tc_ledger.Prelude.{
  ℕ, zero, suc, ◌+◌, ◌/◌, ◌%◌, ◌≡◌, inl, inr, refl, sym, ◌∙◌, ap, ap₂, Bool, true, false, not,
  Bool-cases, ◌&&◌, &&_true, [], ◌∷◌, ◌++◌, ◌==◌, ltb, leb, length, arith,
}
use tc_ledger.Py.Result.{
  Result, ok, malformed_record, invalid_signature, raise_if, raise_if_inversion, ok_value,
  >>=-eq-ok,
}
use tc_ledger.Py.Int.{pos}
use tc_ledger.Py.Str.{Str, Bytes, codes, same, same→eq}
use tc_ledger.Py.Utf8.{utf8_encode}
use tc_ledger.Py.Utf8.Injective.{utf8_encode-injective}
use tc_ledger.Py.Json.{Json, Fields, int, str, get, has_key}
use tc_ledger.Py.Text.{all_chars, is_digit, decimal_from, decimal}
use tc_ledger.Record.Text.{rstrip_padding, replace_char, b64decode, urlsafe_b64encode}
use tc_ledger.Record.Did.{public_key_from_did}
use tc_ledger.Record.Signed.{
  valid, unsigned, VerificationResult, str_or_malformed, is_int, nonce_text, is_signature_text,
  every_error_malformed, decode_signature, canonical_text, verify_signature, verify_signed_record,
}
use tc_ledger.Artifact.Consistency.{has_char, has_keys}

unnegated : (b : Bool) → not b ≡ false → b ≡ true
unnegated true h = refl
unnegated false h = cc

-- A signature has one text, up to the padding that `verify_signed_record` permits.
pub decode_signature-injective :
    (s t : Str) (signature : Bytes)
    → decode_signature s ≡ ok signature
    → decode_signature t ≡ ok signature
    → rstrip_padding s ≡ rstrip_padding t
unfolding decode_signature
decode_signature-injective s t signature g h = sym (canonical s g) ∙ canonical t h
  where
    canonical :
        (u : Str)
        → decode_signature u ≡ ok signature
        → rstrip_padding (urlsafe_b64encode signature) ≡ rstrip_padding u
    canonical u k =
        let (_, _, k1) = >>=-eq-ok (raise_if (not (is_signature_text u)) malformed_record) _ k in
        let (_, _, k2) =
          >>=-eq-ok (raise_if (not (length (rstrip_padding u) == 86)) malformed_record) _ k1 in
        let (decoded, _, k3) =
          >>=-eq-ok
            (every_error_malformed (
              b64decode
                (replace_char 0x5f 0x2f (replace_char 0x2d 0x2b (rstrip_padding u ++ codes "==")))))
            _ k2 in
        let (_, _, k4) = >>=-eq-ok (raise_if (not (length decoded == 64)) malformed_record) _ k3 in
        let (_, c, k5) =
          >>=-eq-ok
            (raise_if (not (same (rstrip_padding (urlsafe_b64encode decoded)) (rstrip_padding u)))
              malformed_record)
            _ k4 in
        ap (λ b. rstrip_padding (urlsafe_b64encode b)) (sym (ok_value k5))
        ∙ same→eq _ _ (unnegated _ (raise_if_inversion _ _ c))

no_bar_behind : (c : ℕ) (s : Str) → has_char 0x7c (c ∷ s) ≡ false → has_char 0x7c s ≡ false
no_bar_behind c s h = ground (arith, h)

-- What stands in front of the first `|` of a text.
bar_splits :
    (a b x y : Str)
    → has_char 0x7c a ≡ false
    → has_char 0x7c b ≡ false
    → a ++ (codes "|" ++ x) ≡ b ++ (codes "|" ++ y)
    → (a ≡ b) × (x ≡ y)
bar_splits [] [] x y ha hb e = (refl, cc)
bar_splits [] (d ∷ b) x y ha hb e = ground (arith, hb, e)
bar_splits (c ∷ a) [] x y ha hb e = ground (arith, ha, e)
bar_splits (c ∷ a) (d ∷ b) x y ha hb e =
    let head : c ≡ d = cc in
    let tail : a ++ (codes "|" ++ x) ≡ b ++ (codes "|" ++ y) = cc in
    let (same_a, same_x) = bar_splits a b x y (no_bar_behind c a ha) (no_bar_behind d b hb) tail in
    (ap₂ (λ z r. z ∷ r) head same_a, same_x)

digits_no_bar : (s : Str) → all_chars is_digit s ≡ true → has_char 0x7c s ≡ false
digits_no_bar [] h = refl
digits_no_bar (c ∷ s) h =
    let both = &&_true (is_digit c) (all_chars is_digit s) h in
    let rest = digits_no_bar s both.1 in let digit = both.0 in ground (arith, digit, rest)

decimal_from_no_bar :
    (f n : ℕ) (written : Str)
    → has_char 0x7c written ≡ false
    → has_char 0x7c (decimal_from f n written) ≡ false
unfolding decimal_from
decimal_from_no_bar zero n written h = h
decimal_from_no_bar (suc f) n written h =
    let digit : has_char 0x7c ((0x30 + n % 10) ∷ written) ≡ false = ground (arith, h) in
    let longer = decimal_from_no_bar f (n / 10) ((0x30 + n % 10) ∷ written) digit in
    elim (Bool-cases (ltb n 10)) [
      | inl small ↦ rw small (ground (arith, h, small))
      | inr large ↦ rw large longer
    ]

nonce_no_bar : (j : Json) (s : Str) → nonce_text j ≡ ok s → has_char 0x7c s ≡ false
unfolding nonce_text decimal
nonce_no_bar (int (pos n)) s h =
    let (_, _, h1) = >>=-eq-ok (raise_if (ltb 19 (length (decimal n))) malformed_record) _ h in
    rw (sym (ok_value h1)) (decimal_from_no_bar (suc n) n [] refl)
nonce_no_bar (str t) s h =
    let (_, c, h1) =
      >>=-eq-ok
        (raise_if (not (leb 1 (length t) && leb (length t) 19 && all_chars is_digit t))
          malformed_record)
        _ h in
    let digits =
      &&_true (leb 1 (length t) && leb (length t) 19) (all_chars is_digit t)
        (unnegated _ (raise_if_inversion _ _ c)) in
    rw (sym (ok_value h1)) (digits_no_bar t digits.1)
nonce_no_bar _ s h = cc

module _ (b58decode : Str → Result Bytes) (verify : Bytes → Bytes → Bytes → Bool) where
  -- The sender's key accepts the record's signature over the room, the nonce and the text.
  abbrev pub SignedIn : Str → Fields → Type 0
  SignedIn room fields =
      (sender message nonce sig_str : Str) × (public_key signature canonical : Bytes) × (get fields
          (codes "from")
        ≡ str sender)
      × (get fields (codes "text") ≡ str message)
      × (get fields (codes "sig") ≡ str sig_str)
      × (nonce_text (get fields (codes "nonce")) ≡ ok nonce)
      × (public_key_from_did b58decode sender ≡ ok public_key)
      × (decode_signature sig_str ≡ ok signature)
      × (utf8_encode (canonical_text room nonce message) ≡ ok canonical)
      × (verify public_key canonical signature ≡ true)

  str_inversion : (j : Json) {s : Str} → str_or_malformed j ≡ ok s → j ≡ str s
  str_inversion (str t) h = ap str (ok_value h)
  str_inversion _ h = cc

  verify_signature-SignedIn :
      (fields : Fields) (room : Str) (result : VerificationResult)
      → verify_signature b58decode verify fields room ≡ ok result
      → SignedIn room fields
  unfolding verify_signature
  verify_signature-SignedIn fields room result h =
      let (_, _, h1) =
        >>=-eq-ok (raise_if (not (has_key fields (codes "nonce"))) malformed_record) _ h in
      let (_, _, h2) =
        >>=-eq-ok (raise_if (not (is_int (get fields (codes "seq")))) malformed_record) _ h1 in
      let (sender, f, h3) = >>=-eq-ok (str_or_malformed (get fields (codes "from"))) _ h2 in
      let (message, t, h4) = >>=-eq-ok (str_or_malformed (get fields (codes "text"))) _ h3 in
      let (nonce, n, h5) = >>=-eq-ok (nonce_text (get fields (codes "nonce"))) _ h4 in
      let (sig_str, s, h6) = >>=-eq-ok (str_or_malformed (get fields (codes "sig"))) _ h5 in
      let (public_key, k, h7) = >>=-eq-ok (public_key_from_did b58decode sender) _ h6 in
      let (signature, d, h8) = >>=-eq-ok (decode_signature sig_str) _ h7 in
      let (canonical, u, h9) = >>=-eq-ok (utf8_encode (canonical_text room nonce message)) _ h8 in
      let (_, v, _) =
        >>=-eq-ok (raise_if (not (verify public_key canonical signature)) invalid_signature) _ h9 in
      (
        sender,
        message,
        nonce,
        sig_str,
        public_key,
        signature,
        canonical,
        str_inversion _ f,
        str_inversion _ t,
        str_inversion _ s,
        n,
        k,
        d,
        u,
        unnegated _ (raise_if_inversion _ _ v),
      )

  -- If `verify_signed_record` calls a record VALID in a room, then the key of the record's sender
  -- accepts the record's signature over the room, the nonce and the text, and the room is
  -- named without `|`.
  pub verify_signed_record-SignedIn :
      (fields : Fields) (room : Str) (seq : Json)
      → verify_signed_record b58decode verify fields room
        ≡ ok (record { seq = seq; status = valid })
      → SignedIn room fields × (has_char 0x7c room ≡ false) × (same room [] ≡ false)
  unfolding verify_signed_record
  verify_signed_record-SignedIn fields room seq h =
      let (_, named, h1) = >>=-eq-ok (raise_if (same room []) malformed_record) _ h in
      let (_, bar, h2) = >>=-eq-ok (raise_if (has_char 0x7c room) malformed_record) _ h1 in
      let (_, _, h3) =
        >>=-eq-ok
          (raise_if
            (not (has_keys fields (codes "seq" ∷ codes "ts" ∷ codes "from" ∷ codes "text" ∷ [])))
            malformed_record)
          _ h2 in
      elim (Bool-cases (has_key fields (codes "sig"))) [
        | inl signed ↦ (
          verify_signature-SignedIn fields room _ (rw signed at h3),
          raise_if_inversion _ _ bar,
          raise_if_inversion _ _ named,
        )
        | inr missing ↦ absurd (unsigned_not_valid (rw missing at h3))
      ]
    where
      unsigned_not_valid :
          {a b : Json}
          → ◌≡◌ {A = Result VerificationResult}
              (ok (record { seq = a; status = unsigned }))
              (ok (record { seq = b; status = valid }))
          → ⊥
      unsigned_not_valid e = let statuses : unsigned ≡ valid = ap (λ r. r.status) (ok_value e) in cc

-- The signed bytes determine the room, the nonce and the text: if two rooms have no `|`, two nonces
-- pass the checks, and the canonical texts have one encoding, then all three parts are equal.
pub canonical_text-injective :
    (room room' nonce nonce' message message' : Str) (j j' : Json) (canonical : Bytes)
    → has_char 0x7c room ≡ false
    → has_char 0x7c room' ≡ false
    → nonce_text j ≡ ok nonce
    → nonce_text j' ≡ ok nonce'
    → utf8_encode (canonical_text room nonce message) ≡ ok canonical
    → utf8_encode (canonical_text room' nonce' message') ≡ ok canonical
    → (room ≡ room') × (nonce ≡ nonce') × (message ≡ message')
canonical_text-injective room room' nonce nonce' message message' j j' canonical r r' n n' e e' =
    let (rooms, rest) =
      bar_splits room room' (nonce ++ (codes "|" ++ message)) (nonce' ++ (codes "|" ++ message')) r
        r' (utf8_encode-injective _ _ canonical e e') in
    let (nonces, messages) =
      bar_splits nonce nonce' message message' (nonce_no_bar j nonce n) (nonce_no_bar j' nonce' n')
        rest in
    (rooms, nonces, messages)
