-- ===== src/Py/Hex.antt =====
-- `bytes.hex` and `bytes.fromhex`.
use tc_ledger.Prelude.{
  ℕ, ◌+◌, ◌-◌, ◌*◌, ◌/◌, ◌%◌, ◌<◌, ◌≡◌, refl, ◌∙◌, Bool, ◌&&◌, ◌||◌, [], ◌∷◌, ◌==◌, leb, ltb,
  if◌then◌else◌, length, arith, true, false,
}
use tc_ledger.Py.Result.{Result, ok, err, value_error, ◌>>=◌}
use tc_ledger.Py.Str.{Str, Bytes, IsBytes}

unfoldable pub hex_digit : ℕ → ℕ
hex_digit d = if ltb d 10 then b'0' + d else b'a' + (d - 10)

-- b.hex()
unfoldable pub hex : Bytes → Str
hex [] = []
hex (b ∷ bs) = hex_digit (b / 16) ∷ hex_digit (b % 16) ∷ hex bs

unfoldable pub digit_value : ℕ → Result ℕ
digit_value c =
    if leb b'0' c && leb c b'9'
    then ok (c - b'0')
    else if leb b'a' c && leb c b'f'
    then ok (c - b'a' + 10)
    else if leb b'A' c && leb c b'F'
    then ok (c - b'A' + 10)
    else err value_error

-- ASCII white space, which `fromhex` skips between bytes.
unfoldable pub is_ascii_space : ℕ → Bool
is_ascii_space c = c == 32 || (leb 9 c && leb c 13)

-- bytes.fromhex(s)
unfoldable pub fromhex : Str → Result Bytes
fromhex [] = ok []
fromhex (c ∷ []) = if is_ascii_space c then ok [] else err value_error
fromhex (c ∷ d ∷ rest) = elim (is_ascii_space c) [
  | true ↦ fromhex (d ∷ rest)
  | false ↦ do
    high ← digit_value c
    low ← digit_value d
    bytes ← fromhex rest
    ok ((high * 16 + low) ∷ bytes)
]

digit_value-hex_digit : (d : ℕ) → d < 16 → digit_value (hex_digit d) ≡ ok d
unfolding digit_value hex_digit
digit_value-hex_digit d h = ground arith

is_ascii_space-hex_digit : (d : ℕ) → d < 16 → is_ascii_space (hex_digit d) ≡ false
unfolding is_ascii_space hex_digit
is_ascii_space-hex_digit d h = ground arith

fromhex_pair :
    (c d high low : ℕ) (rest bytes : Bytes)
    → is_ascii_space c ≡ false
    → digit_value c ≡ ok high
    → digit_value d ≡ ok low
    → fromhex rest ≡ ok bytes
    → fromhex (c ∷ d ∷ rest) ≡ ok ((high * 16 + low) ∷ bytes)
unfolding fromhex
fromhex_pair c d high low rest bytes e p q r = rw (e, fromhex) (rw (p, q, r))

-- What `hex` prints, `fromhex` reads back.
pub fromhex-hex : (b : Bytes) → IsBytes b → fromhex (hex b) ≡ ok b
unfolding hex
fromhex-hex [] h = unfold fromhex in refl
fromhex-hex (b ∷ bs) (hb, hs) =
    fromhex_pair (hex_digit (b / 16)) (hex_digit (b % 16)) (b / 16) (b % 16) (hex bs) bs
      (is_ascii_space-hex_digit (b / 16) (omega arith))
      (digit_value-hex_digit (b / 16) (omega arith)) (digit_value-hex_digit (b % 16) (omega arith))
      (fromhex-hex bs hs)
    ∙ (let e : b / 16 * 16 + b % 16 ≡ b = omega arith in rw e)

pub length-hex : (b : Bytes) → length (hex b) ≡ 2 * length b
unfolding hex
length-hex [] = refl
length-hex (b ∷ bs) = omega (arith, length-hex bs)
