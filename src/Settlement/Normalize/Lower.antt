-- ===== src/Settlement/Normalize/Lower.antt =====
-- Normalized texts are in lower case already, and normalizing an address again changes nothing.
use tc_ledger.Prelude.{ℕ, ◌/◌, ◌%◌, ◌≡◌, ◌<◌, refl, ◌∙◌, ap, ◌++◌, some, [], ◌∷◌, map, arith, All}
use tc_ledger.Py.Str.{Str, Bytes, IsBytes, codes}
use tc_ledger.Py.Text.{ascii_lower}
use tc_ledger.Py.Text.Runtime.{Runtime}
use tc_ledger.Py.Hex.{hex, hex_digit}
use tc_ledger.Py.Json.{Json, str}
use tc_ledger.Settlement.Normalize.{normalize_hex, normalize_address}
use tc_ledger.Settlement.Normalize.Shape.{
  of_length-some, hex-lower, normalize_hex-hex, normalize_hex_idem,
}

hex_digit-lt : (v : ℕ) → v < 16 → hex_digit v < 128
unfolding hex_digit
hex_digit-lt v h = ground arith

hex-ascii : (b : Bytes) → IsBytes b → All (λ c. c < 128) (hex b)
unfolding hex
hex-ascii [] h = tt
hex-ascii (b ∷ bs) (hb, hs) =
    (hex_digit-lt (b / 16) (omega arith), (hex_digit-lt (b % 16) (omega arith), hex-ascii bs hs))

-- What `normalize_hex` returns is its own lower case.
pub lower-normalize_hex :
    (rt : Runtime) (j : Json) (h : Str) → normalize_hex j ≡ some h → rt.lower h ≡ h
lower-normalize_hex rt j h e =
    let (b, bytes, shape, _) = normalize_hex-hex j h e in rw shape (of_hex b bytes)
  where
    of_hex : (b : Bytes) → IsBytes b → rt.lower (codes "0x" ++ hex b) ≡ codes "0x" ++ hex b
    of_hex b bytes =
        rt.lower_ascii (codes "0x" ++ hex b) (omega arith, (omega arith, hex-ascii b bytes))
        ∙ lower_prefix
        ∙ ap (λ t. codes "0x" ++ t) (hex-lower b bytes)
      where
        lower_prefix : map ascii_lower (codes "0x" ++ hex b) ≡ codes "0x" ++ map ascii_lower (hex b)
        lower_prefix = unfold ascii_lower in refl

pub normalize_address-normalize_hex :
    (j : Json) (a : Str) → normalize_address j ≡ some a → normalize_hex j ≡ some a
unfolding normalize_address
normalize_address-normalize_hex j a e = (of_length-some 42 (normalize_hex j) a e).1

pub normalize_address_idem :
    (j : Json) (a : Str) → normalize_address j ≡ some a → normalize_address (str a) ≡ some a
unfolding normalize_address
normalize_address_idem j a e =
    let (long, normal) = of_length-some 42 (normalize_hex j) a e in
    let again = normalize_hex_idem j a normal in rw again (ground (arith, long))
