-- ===== src/Py/Utf8/Injective.antt =====
-- UTF-8 loses nothing: a decoder of what `utf8_encode` writes.
use tc_ledger.Prelude.{
  ℕ, zero, suc, ◌+◌, ◌-◌, ◌*◌, ◌≡◌, refl, sym, ◌∙◌, ap, [], ◌∷◌, ◌++◌, ltb, if◌then◌else◌, arith,
  drop,
}
use tc_ledger.Py.Result.{ok, >>=-eq-ok, ok_value}
use tc_ledger.Py.Str.{Str, Bytes}
use tc_ledger.Py.Utf8.{encode_char, utf8_encode}

abbrev byte_at : Bytes → ℕ → ℕ
byte_at [] i = 0
byte_at (b ∷ bytes) zero = b
byte_at (b ∷ bytes) (suc i) = byte_at bytes i

-- The code point that a byte sequence starts with, and the rest; the ranges are not checked.
unfoldable decode_char : Bytes → ℕ × Bytes
decode_char bytes =
    let a = byte_at bytes 0 in
    if ltb a 0x80
    then (a, drop 1 bytes)
    else if ltb a 0xe0
    then ((a - 0xc0) * 64 + (byte_at bytes 1 - 0x80), drop 2 bytes)
    else if ltb a 0xf0
    then (
      (a - 0xe0) * 4096 + (byte_at bytes 1 - 0x80) * 64 + (byte_at bytes 2 - 0x80),
      drop 3 bytes,
    )
    else (
      (a - 0xf0) * 262144
          + (byte_at bytes 1 - 0x80) * 4096
          + (byte_at bytes 2 - 0x80) * 64
          + (byte_at bytes 3 - 0x80),
      drop 4 bytes,
    )

decode_char-encode_char :
    (c : ℕ) (bytes rest : Bytes)
    → encode_char c ≡ ok bytes
    → decode_char (bytes ++ rest) ≡ (c, rest)
unfolding encode_char decode_char
decode_char-encode_char c bytes rest h = ground (arith, h)

encode_char-nonempty : (c : ℕ) (rest : Bytes) → encode_char c ≡ ok [] → ⊥
unfolding encode_char
encode_char-nonempty c rest h = ground (arith, h)

-- A first character and an encoding of the others are no empty sequence.
cons_nonempty : (c : ℕ) (cs : Str) → utf8_encode (c ∷ cs) ≡ ok [] → ⊥
unfolding utf8_encode
cons_nonempty c cs h =
    let (first, f, h1) = >>=-eq-ok (encode_char c) _ h in
    let (rest, _, h2) = >>=-eq-ok (utf8_encode cs) _ h1 in
    nonempty_append first rest f (ok_value h2)
  where
    nonempty_append : (first rest : Bytes) → encode_char c ≡ ok first → first ++ rest ≡ [] → ⊥
    nonempty_append [] rest f e = encode_char-nonempty c rest f
    nonempty_append (b ∷ first) rest f e = cc

-- Two texts with one encoding are equal.
pub utf8_encode-injective :
    (s t : Str) (b : Bytes) → utf8_encode s ≡ ok b → utf8_encode t ≡ ok b → s ≡ t
unfolding utf8_encode
utf8_encode-injective [] [] b g h = refl
utf8_encode-injective [] (d ∷ t) b g h =
    let e : utf8_encode (d ∷ t) ≡ ok [] = h ∙ sym g in absurd (cons_nonempty d t e)
utf8_encode-injective (c ∷ s) [] b g h =
    let e : utf8_encode (c ∷ s) ≡ ok [] = g ∙ sym h in absurd (cons_nonempty c s e)
utf8_encode-injective (c ∷ s) (d ∷ t) b g h =
    let (a, f, g1) = >>=-eq-ok (encode_char c) _ g in
    let (x, r, g2) = >>=-eq-ok (utf8_encode s) _ g1 in
    let (a', f', h1) = >>=-eq-ok (encode_char d) _ h in
    let (x', r', h2) = >>=-eq-ok (utf8_encode t) _ h1 in
    let joined : a ++ x ≡ a' ++ x' = cc in
    let same_start : ◌≡◌ {A = ℕ × Bytes} (c, x) (d, x') =
      sym (decode_char-encode_char c a x f)
      ∙ ap decode_char joined
      ∙ decode_char-encode_char d a' x' f' in
    let head : c ≡ d = ap (λ p. p.0) same_start in
    let tail : x ≡ x' = ap (λ p. p.1) same_start in
    rw head (ap (λ u. d ∷ u) (utf8_encode-injective s t x r (r' ∙ ap ok (sym tail))))
