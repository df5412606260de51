-- ===== src/Tests/Crypto.antt =====
-- Known answers of Keccak-256, and the addresses of the generator of secp256k1.
use tc_ledger.Prelude.{◌≡◌, refl, []}
use tc_ledger.Py.Result.{ok}
use tc_ledger.Py.Str.{codes}
use tc_ledger.Py.Json.{str}
use tc_ledger.Py.Text.{is_space, lstrip, rstrip, strip}
use tc_ledger.Py.Hex.{hex, hex_digit, fromhex, digit_value, is_ascii_space}
use tc_ledger.Crypto.Keccak.{
  replicate, range, or_zero, nth, set, from_little, to_little, pad, absorb, column, parity_of,
  add_parity, theta, rho_pi, chi_lanes, chi, permutation_round, permute, sponge, squeeze, keccak256,
}
use tc_ledger.Crypto.Secp256k1.{
  from_big, to_big, pow_from, pow_mod, curve_rhs, on_curve, read_point, decompress, point_of,
  point_address, secp256k1_pubkey_to_address,
}

keccak256_empty :
    hex (keccak256 []) ≡ codes "c5d2460186f7233c927e7db2dcc703c0e500b653ca82273b7bfad8045d85a470"
unfolding hex hex_digit replicate range or_zero nth set from_little to_little pad absorb column
    parity_of add_parity theta rho_pi chi_lanes chi permutation_round permute sponge squeeze
    keccak256
keccak256_empty = refl

transfer_topic :
    hex (keccak256 (codes "Transfer(address,address,uint256)"))
    ≡ codes "ddf252ad1be2c89b69c2b068fc378daa952ba7f163c4a11628f55a4df523b3ef"
unfolding hex hex_digit replicate range or_zero nth set from_little to_little pad absorb column
    parity_of add_parity theta rho_pi chi_lanes chi permutation_round permute sponge squeeze
    keccak256
transfer_topic = refl

generator_compressed :
    secp256k1_pubkey_to_address
      (str (codes "0279be667ef9dcbbac55a06295ce870b07029bfcdb2dce28d959f2815b16f81798"))
    ≡ ok (codes "0x7e5f4552091a69125d5dfcb7b8c2659029395bdf")
unfolding hex hex_digit replicate range or_zero nth set from_little to_little pad absorb column
    parity_of add_parity theta rho_pi chi_lanes chi permutation_round permute sponge squeeze
    keccak256 is_space lstrip rstrip strip fromhex digit_value is_ascii_space from_big to_big
    pow_from pow_mod curve_rhs on_curve read_point decompress point_of point_address
    secp256k1_pubkey_to_address
generator_compressed = refl
