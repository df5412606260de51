-- ===== src/Settlement/Normalize/Shape.antt =====
-- What a normalized text looks like: `0x` and the lower-case hex text of some bytes.
use tc_ledger.Prelude.{
  ℕ, ◌+◌, ◌-◌, ◌*◌, ◌/◌, ◌%◌, ◌≡◌, ◌<◌, ◌≤◌, length-map, refl, sym, ◌∙◌, ap, ap₂, true, false,
  &&_true, Bool-cases, inl, inr, Option, none, some, [], ◌∷◌, ◌++◌, map, ◌==◌, ==→eq, leb,
  if◌then◌else◌, length, arith, All,
}
use tc_ledger.Py.Str.{Str, Bytes, IsBytes, codes}
use tc_ledger.Py.Text.{
  all_chars, strip, lstrip, rstrip, is_space, drop_0x, is_hex_digit, is_hex_digits, ascii_lower,
}
use tc_ledger.Py.Hex.{hex, hex_digit, length-hex}
use tc_ledger.Py.Json.{Json, str}
use tc_ledger.Settlement.Normalize.{
  even_digits, normalize_text, normalize_hex, of_length, normalize_address,
}

-- The value of a hex digit.
abbrev digit_of : ℕ → ℕ
digit_of c = if leb c b'9' then c - b'0' else if leb b'a' c then c - b'a' + 10 else c - b'A' + 10

digit_of-lt : (c : ℕ) → is_hex_digit c ≡ true → digit_of c < 16
unfolding is_hex_digit
digit_of-lt c h = ground (arith, h)

hex_digit-digit_of : (c : ℕ) → is_hex_digit c ≡ true → hex_digit (digit_of c) ≡ ascii_lower c
unfolding is_hex_digit hex_digit ascii_lower
hex_digit-digit_of c h = ground (arith, h)

-- The bytes that hex digits denote.
abbrev bytes_of : Str → Bytes
bytes_of (c ∷ d ∷ s) = (digit_of c * 16 + digit_of d) ∷ bytes_of s
bytes_of _ = []

bytes_of-IsBytes : (s : Str) → all_chars is_hex_digit s ≡ true → IsBytes (bytes_of s)
bytes_of-IsBytes [] h = tt
bytes_of-IsBytes (c ∷ []) h = tt
bytes_of-IsBytes (c ∷ d ∷ s) h =
    let first = &&_true (is_hex_digit c) _ h in
    let second = &&_true (is_hex_digit d) _ first.1 in
    (omega (arith, digit_of-lt c first.0, digit_of-lt d second.0), bytes_of-IsBytes s second.1)

hex_pair :
    (v w : ℕ) (b : Bytes)
    → v < 16
    → w < 16
    → hex ((v * 16 + w) ∷ b) ≡ hex_digit v ∷ hex_digit w ∷ hex b
unfolding hex
hex_pair v w b hv hw =
    let high : (v * 16 + w) / 16 ≡ v = omega arith in
    let low : (v * 16 + w) % 16 ≡ w = omega arith in rw (high, low)

hex-bytes_of :
    (s : Str)
    → all_chars is_hex_digit s ≡ true
    → length s % 2 ≡ 0
    → hex (bytes_of s) ≡ map ascii_lower s
hex-bytes_of [] h e = unfold hex in refl
hex-bytes_of (c ∷ []) h e = absurd (omega arith)
hex-bytes_of (c ∷ d ∷ s) h e =
    let first = &&_true (is_hex_digit c) _ h in
    let second = &&_true (is_hex_digit d) _ first.1 in
    hex_pair (digit_of c) (digit_of d) (bytes_of s) (digit_of-lt c first.0) (digit_of-lt d second.0)
    ∙ ap₂ (λ x y. x ∷ y) (hex_digit-digit_of c first.0)
        (ap₂ (λ x y. x ∷ y) (hex_digit-digit_of d second.0) (hex-bytes_of s second.1 (omega arith)))

even_digits-even : (s : Str) → length (even_digits s) % 2 ≡ 0
even_digits-even s = elim (Bool-cases (length s % 2 == 0)) [
  | inl even ↦ rw even (==→eq _ _ even)
  | inr odd ↦ rw odd (ground (arith, odd))
]

even_digits-hex :
    (s : Str) → all_chars is_hex_digit s ≡ true → all_chars is_hex_digit (even_digits s) ≡ true
even_digits-hex s h = elim (Bool-cases (length s % 2 == 0)) [
  | inl even ↦ rw even h
  | inr odd ↦ rw odd (unfold is_hex_digit in h)
]

bytes_of-nonempty :
    (s : Str)
    → all_chars is_hex_digit (even_digits s) ≡ true
    → 0 < length s
    → 0 < length (bytes_of (even_digits s))
bytes_of-nonempty s h n =
    let size : length (even_digits s) ≡ 2 * length (bytes_of (even_digits s)) =
      sym (length-map ascii_lower (even_digits s))
      ∙ ap length (sym (hex-bytes_of (even_digits s) h (even_digits-even s)))
      ∙ length-hex (bytes_of (even_digits s)) in
    let longer : length s ≤ length (even_digits s) = elim (Bool-cases (length s % 2 == 0)) [
      | inl even ↦ rw even (omega arith)
      | inr odd ↦ rw odd (omega arith)
    ] in
    omega arith

-- A text that `normalize_hex` returns is `0x` and the hex text of some bytes.
pub normalize_hex-hex :
    (j : Json) (h : Str)
    → normalize_hex j ≡ some h
    → (b : Bytes) × IsBytes b × (h ≡ codes "0x" ++ hex b) × (0 < length b)
unfolding normalize_hex normalize_text
normalize_hex-hex (str text) h e = elim (Bool-cases (is_hex_digits (drop_0x (strip text)))) [
  | inl digits ↦
      let cleaned = drop_0x (strip text) in
      let all = &&_true (leb 1 (length cleaned)) (all_chars is_hex_digit cleaned) digits in
      let padded = even_digits-hex cleaned all.1 in
      (
        bytes_of (even_digits cleaned),
        bytes_of-IsBytes _ padded,
        some_value (sym (rw digits at e))
            ∙ ap (λ t. codes "0x" ++ t)
                (sym (hex-bytes_of (even_digits cleaned) padded (even_digits-even cleaned))),
        bytes_of-nonempty cleaned padded (ground (arith, all.0)),
      )
  | inr other ↦ absurd (none_not_some (rw other at e))
]
  where
    some_value : {x y : Str} → ◌≡◌ {A = Option Str} (some x) (some y) → x ≡ y
    some_value q = cc

    none_not_some : {x : Str} → ◌≡◌ {A = Option Str} none (some x) → ⊥
    none_not_some q = cc
normalize_hex-hex _ h e = cc

-- A text without white space is its own `strip`.
rstrip-solid : (s : Str) → All (λ c. is_space c ≡ false) s → rstrip s ≡ s
unfolding rstrip
rstrip-solid [] h = refl
rstrip-solid (c ∷ s) h = rw (h.0, rstrip-solid s h.1)

strip-solid : (s : Str) → All (λ c. is_space c ≡ false) s → strip s ≡ s
unfolding strip
strip-solid s h = rw (rstrip-solid s h) (lstrip-solid s h)
  where
    lstrip-solid : (t : Str) → All (λ c. is_space c ≡ false) t → lstrip t ≡ t
    lstrip-solid [] k = unfold lstrip in refl
    lstrip-solid (c ∷ t) k = unfold lstrip in rw k.0 refl

hex_digit-solid : (v : ℕ) → v < 16 → is_space (hex_digit v) ≡ false
unfolding hex_digit is_space
hex_digit-solid v h = ground arith

hex_digit-hex : (v : ℕ) → v < 16 → is_hex_digit (hex_digit v) ≡ true
unfolding hex_digit is_hex_digit
hex_digit-hex v h = ground arith

hex_digit-lower : (v : ℕ) → v < 16 → ascii_lower (hex_digit v) ≡ hex_digit v
unfolding hex_digit ascii_lower
hex_digit-lower v h = ground arith

hex-solid : (b : Bytes) → IsBytes b → All (λ c. is_space c ≡ false) (hex b)
unfolding hex
hex-solid [] h = tt
hex-solid (x ∷ b) h = (
  hex_digit-solid (x / 16) (omega arith),
  (hex_digit-solid (x % 16) (omega arith), hex-solid b h.1),
)

hex-hex : (b : Bytes) → IsBytes b → all_chars is_hex_digit (hex b) ≡ true
unfolding hex
hex-hex [] h = refl
hex-hex (x ∷ b) h =
    rw (hex_digit-hex (x / 16) (omega arith), hex_digit-hex (x % 16) (omega arith), hex-hex b h.1)

pub hex-lower : (b : Bytes) → IsBytes b → map ascii_lower (hex b) ≡ hex b
unfolding hex
hex-lower [] h = refl
hex-lower (x ∷ b) h = rw (
  hex_digit-lower (x / 16) (omega arith),
  hex_digit-lower (x % 16) (omega arith),
  hex-lower b h.1,
)

-- `0x` and the hex text of at least one byte is already normal.
pub normalize_hex-canonical :
    (b : Bytes)
    → IsBytes b
    → 0 < length b
    → normalize_hex (str (codes "0x" ++ hex b)) ≡ some (codes "0x" ++ hex b)
unfolding normalize_hex normalize_text
normalize_hex-canonical b h n =
    let solid : strip (codes "0x" ++ hex b) ≡ codes "0x" ++ hex b =
      strip-solid (codes "0x" ++ hex b)
        (unfold is_space in refl, (unfold is_space in refl, hex-solid b h)) in
    let size : (length (hex b) % 2 == 0) ≡ true = ground (arith, length-hex b) in
    let some_digits : leb 1 (length (hex b)) ≡ true = ground (arith, length-hex b) in
    rw (solid, some_digits, hex-hex b h, size, hex-lower b h)

-- `normalize_hex` changes nothing that it has returned.
pub normalize_hex_idem :
    (j : Json) (h : Str) → normalize_hex j ≡ some h → normalize_hex (str h) ≡ some h
normalize_hex_idem j h e =
    let (b, bytes, shape, n) = normalize_hex-hex j h e in
    rw shape (normalize_hex-canonical b bytes n)

-- A text that passes the length test has that length.
pub of_length-some :
    (n : ℕ) (o : Option Str) (t : Str) → of_length n o ≡ some t → (length t ≡ n) × (o ≡ some t)
of_length-some n none t q = cc
of_length-some n (some u) t q = ground (arith, q)

-- An address that `normalize_address` returns is `0x` and the hex text of 20 bytes.
pub normalize_address-hex :
    (j : Json) (h : Str)
    → normalize_address j ≡ some h
    → (b : Bytes) × IsBytes b × (h ≡ codes "0x" ++ hex b) × (length b ≡ 20)
unfolding normalize_address
normalize_address-hex j h e =
    let (long, normal) = of_length-some 42 (normalize_hex j) h e in
    let (b, bytes, shape, _) = normalize_hex-hex j h normal in
    (b, bytes, shape, omega (arith, length-hex b, ap length shape))
