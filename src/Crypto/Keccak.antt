-- ===== src/Crypto/Keccak.antt =====
-- `keccak256` of src/tc_ledger/cross_verify.py. The state is the list of its 25 lanes, `state[x][y]` at
-- 5 * x + y; `~a & b` is written with the mask of 64 bits, which the lanes stay below.
use Prim.Native.Nat.{bit_and, bit_xor, bit_or}
use tc_ledger.Prelude.{
  ℕ, zero, suc, ◌+◌, ◌-◌, ◌*◌, ◌/◌, ◌%◌, ◌^◌, Option, none, some, List, [], ◌∷◌, ◌++◌, map, ◌==◌,
  if◌then◌else◌, length, get_elem?, take, drop,
}
use tc_ledger.Py.Str.{Bytes}

abbrev pub State : Type 0
State = List ℕ

abbrev pub round_constants : List ℕ
round_constants =
    0x0000000000000001 ∷ 0x0000000000008082 ∷ 0x800000000000808A ∷ 0x8000000080008000
    ∷ 0x000000000000808B ∷ 0x0000000080000001 ∷ 0x8000000080008081 ∷ 0x8000000000008009
    ∷ 0x000000000000008A ∷ 0x0000000000000088 ∷ 0x0000000080008009 ∷ 0x000000008000000A
    ∷ 0x000000008000808B ∷ 0x800000000000008B ∷ 0x8000000000008089 ∷ 0x8000000000008003
    ∷ 0x8000000000008002 ∷ 0x8000000000000080 ∷ 0x000000000000800A ∷ 0x800000008000000A
    ∷ 0x8000000080008081 ∷ 0x8000000000008080 ∷ 0x0000000080000001 ∷ 0x8000000080008008 ∷ []

unfoldable pub replicate : ℕ → ℕ → List ℕ
replicate zero x = []
replicate (suc n) x = x ∷ replicate n x

unfoldable pub range : ℕ → ℕ → List ℕ
range zero i = []
range (suc n) i = i ∷ range n (i + 1)

unfoldable pub or_zero : Option ℕ → ℕ
or_zero none = 0
or_zero (some x) = x

unfoldable pub nth : List ℕ → ℕ → ℕ
nth l i = or_zero (get_elem? l i)

unfoldable pub set : List ℕ → ℕ → ℕ → List ℕ
set [] i v = []
set (x ∷ xs) zero v = v ∷ xs
set (x ∷ xs) (suc i) v = x ∷ set xs i v

abbrev pub lane : State → ℕ → ℕ → ℕ
lane s x y = nth s (5 * x + y)

abbrev pub set_lane : State → ℕ → ℕ → ℕ → State
set_lane s x y v = set s (5 * x + y) v

-- int.from_bytes(b, "little")
unfoldable pub from_little : Bytes → ℕ
from_little [] = 0
from_little (b ∷ bs) = b + 256 * from_little bs

-- n.to_bytes(count, "little"), for a number that fits
unfoldable pub to_little : ℕ → ℕ → Bytes
to_little zero n = []
to_little (suc count) n = n % 256 ∷ to_little count (n / 256)

-- The left rotation by 0 < k < 64.
abbrev pub rotate : ℕ → ℕ → ℕ
rotate v k = bit_or (bit_and (v * 2 ^ k) 0xFFFFFFFFFFFFFFFF) (v / 2 ^ (64 - k))

unfoldable pub pad : Bytes → Bytes
pad bytes =
    let pad_len = 136 - length bytes % 136 in
    bytes ++ (if pad_len == 1 then 0x81 ∷ [] else 0x01 ∷ (replicate (pad_len - 2) 0 ++ 0x80 ∷ []))

-- `for i in range(r_bytes // 8)`
unfoldable pub absorb : List ℕ → Bytes → State → State
absorb [] block s = s
absorb (i ∷ is) block s = absorb is block (
    set_lane s (i % 5) (i / 5)
      (bit_xor (lane s (i % 5) (i / 5)) (from_little (take 8 (drop (i * 8) block)))))

unfoldable pub column : State → ℕ → ℕ
column s x =
    bit_xor (bit_xor (bit_xor (bit_xor (lane s x 0) (lane s x 1)) (lane s x 2)) (lane s x 3))
      (lane s x 4)

unfoldable pub parity_of : List ℕ → ℕ → ℕ
parity_of c x = bit_xor (nth c ((x + 4) % 5)) (rotate (nth c ((x + 1) % 5)) 1)

unfoldable pub add_parity : List ℕ → List ℕ → State → State
add_parity d [] s = s
add_parity d (i ∷ is) s = add_parity d is (set s i (bit_xor (nth s i) (nth d (i / 5))))

unfoldable pub theta : State → State
theta s =
    let c = map (column s) (range 5 0) in
    let d = map (parity_of c) (range 5 0) in add_parity d (range 25 0) s

-- `for t in range(24)`
unfoldable pub rho_pi : List ℕ → ℕ → ℕ → ℕ → State → State
rho_pi [] x y curr s = s
rho_pi (t ∷ ts) x y curr s =
    let rot = (t + 1) * (t + 2) / 2 % 64 in
    let ny = (2 * x + 3 * y) % 5 in
    rho_pi ts y ny (lane s y ny) (set_lane s y ny (if rot == 0 then curr else rotate curr rot))

unfoldable pub chi_lanes : List ℕ → ℕ → List ℕ → State → State
chi_lanes orig y [] s = s
chi_lanes orig y (x ∷ xs) s = chi_lanes orig y xs (
    set_lane s x y (
      bit_xor (nth orig x)
        (bit_and (bit_xor (nth orig ((x + 1) % 5)) 0xFFFFFFFFFFFFFFFF) (nth orig ((x + 2) % 5)))))

unfoldable pub chi : List ℕ → State → State
chi [] s = s
chi (y ∷ ys) s = chi ys (chi_lanes (map (λ x. lane s x y) (range 5 0)) y (range 5 0) s)

unfoldable pub permutation_round : ℕ → State → State
permutation_round rc s =
    let mixed = theta s in
    let moved = rho_pi (range 24 0) 1 0 (lane mixed 1 0) mixed in
    let nonlinear = chi (range 5 0) moved in
    set_lane nonlinear 0 0 (bit_xor (lane nonlinear 0 0) rc)

unfoldable pub permute : List ℕ → State → State
permute [] s = s
permute (rc ∷ rcs) s = permute rcs (permutation_round rc s)

-- `for b_idx in range(0, len(padded), r_bytes)`, with the number of blocks as fuel.
unfoldable pub sponge : ℕ → Bytes → State → State
sponge zero padded s = s
sponge (suc blocks) padded s =
    sponge blocks (drop 136 padded)
      (permute round_constants (absorb (range 17 0) (take 136 padded) s))

-- The bytes of the lanes, row by row.
unfoldable pub squeeze : State → List ℕ → Bytes
squeeze s [] = []
squeeze s (i ∷ is) = to_little 8 (lane s (i % 5) (i / 5)) ++ squeeze s is

unfoldable pub keccak256 : Bytes → Bytes
keccak256 bytes =
    let padded = pad bytes in
    take 32 (squeeze (sponge (length padded / 136) padded (replicate 25 0)) (range 25 0))
