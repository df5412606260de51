-- ===== src/Crypto/Secp256k1.antt =====
-- `secp256k1_pubkey_to_address` and `public_key_to_eth_address` of src/tc_ledger/cross_verify.py.
use tc_ledger.Prelude.{
  ℕ, zero, suc, ◌+◌, ◌-◌, ◌*◌, ◌/◌, ◌%◌, Bool, not, ◌&&◌, ◌||◌, [], ◌∷◌, ◌++◌, ◌==◌, if◌then◌else◌,
  length, take, drop,
}
use tc_ledger.Py.Result.{Result, ok, err, value_error, raise_if, ◌>>=◌, ◌>>◌}
use tc_ledger.Py.Str.{Str, Bytes, codes}
use tc_ledger.Py.Hex.{hex, fromhex}
use tc_ledger.Py.Text.{strip, drop_0x, starts_with}
use tc_ledger.Py.Text.Runtime.{Runtime}
use tc_ledger.Py.Json.{Json, str}
use tc_ledger.Crypto.Keccak.{keccak256}

abbrev pub secp256k1_p : ℕ
secp256k1_p = 0xFFFFFFFFFFFFFFFFFFFFFFFFFFFFFFFFFFFFFFFFFFFFFFFFFFFFFFFEFFFFFC2F

-- int.from_bytes(b, "big"), behind the digits already read.
unfoldable pub from_big : ℕ → Bytes → ℕ
from_big n [] = n
from_big n (b ∷ bs) = from_big (256 * n + b) bs

-- n.to_bytes(count, "big"), for a number that fits
unfoldable pub to_big : ℕ → ℕ → Bytes
to_big zero n = []
to_big (suc count) n = to_big count (n / 256) ++ n % 256 ∷ []

-- pow(a, e, m) by squaring; a bit of `e` is used in each round, so `e` is fuel enough.
unfoldable pub pow_from : ℕ → ℕ → ℕ → ℕ → ℕ
pow_from zero a e m = 1 % m
pow_from (suc fuel) a e m =
    let half = pow_from fuel (a * a % m) (e / 2) m in
    let odd = a * half % m in if e == 0 then 1 % m else if e % 2 == 1 then odd else half

unfoldable pub pow_mod : ℕ → ℕ → ℕ → ℕ
pow_mod a e m = pow_from e a e m

-- (pow(x, 3, p) + 7) % p
unfoldable pub curve_rhs : ℕ → ℕ
curve_rhs x = (pow_mod x 3 secp256k1_p + 7) % secp256k1_p

unfoldable pub on_curve : ℕ → ℕ → Bool
on_curve x y = pow_mod y 2 secp256k1_p == curve_rhs x

-- The coordinates of an uncompressed point.
unfoldable pub read_point : Bytes → Bytes → Result (Bytes × Bytes)
read_point x_bytes y_bytes = do
  raise_if (not (on_curve (from_big 0 x_bytes) (from_big 0 y_bytes))) value_error
  ok (x_bytes, y_bytes)

-- The coordinates of a compressed point.
unfoldable pub decompress : ℕ → Bytes → Result (Bytes × Bytes)
decompress prefix x_bytes = do
  let x = from_big 0 x_bytes
  let y_sq = curve_rhs x
  let y = pow_mod y_sq ((secp256k1_p + 1) / 4) secp256k1_p
  raise_if (not (pow_mod y 2 secp256k1_p == y_sq)) value_error
  ok (to_big 32 x, to_big 32 (if y % 2 == prefix % 2 then y else (secp256k1_p - y) % secp256k1_p))

unfoldable pub point_of : Bytes → Result (Bytes × Bytes)
point_of [] = err value_error
point_of (prefix ∷ rest) =
    if length rest == 64 && prefix == 0x04
    then read_point (take 32 rest) (drop 32 rest)
    else if length rest == 32 && (prefix == 0x02 || prefix == 0x03)
    then decompress prefix rest
    else if length rest == 63
    then read_point (take 32 (prefix ∷ rest)) (drop 32 (prefix ∷ rest))
    else err value_error

-- The last 20 bytes of the hash of the point.
unfoldable pub point_address : Bytes × Bytes → Str
point_address (x_bytes, y_bytes) = codes "0x" ++ hex (drop 12 (keccak256 (x_bytes ++ y_bytes)))

unfoldable pub secp256k1_pubkey_to_address : Json → Result Str
secp256k1_pubkey_to_address (str pubkey_hex) = do
  key ← fromhex (drop_0x (strip pubkey_hex))
  point ← point_of key
  ok (point_address point)
secp256k1_pubkey_to_address _ = err value_error

unfoldable pub public_key_to_eth_address : Runtime → Json → Result Str
public_key_to_eth_address rt (str key) =
    let s = strip key in
    secp256k1_pubkey_to_address
      (str (if starts_with (rt.lower s) (codes "secp256k1:") then drop 10 s else s))
public_key_to_eth_address rt _ = err value_error
