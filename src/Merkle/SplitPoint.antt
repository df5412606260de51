-- ===== src/Merkle/SplitPoint.antt =====
-- `split_point` is the largest power of two below the size, as RFC 6962 asks.
use native.Mathlib.Nat.{pow-succ'}
use tc_ledger.Prelude.{ℕ, zero, suc, ◌*◌, ◌/◌, ◌^◌, ◌≤◌, ◌<◌, ◌≡◌, refl, ◌∙◌, ap, arith}
use tc_ledger.Py.Result.{ok}
use tc_ledger.Merkle.Consistency.{bit_length_from, bit_length, split_point}

bit_length_from_step :
    (f n : ℕ) → 0 < n → bit_length_from (suc f) n ≡ suc (bit_length_from f (n / 2))
unfolding bit_length_from
bit_length_from_step f n h = ground arith

bit_length_from_zero : (f : ℕ) → bit_length_from f 0 ≡ 0
unfolding bit_length_from
bit_length_from_zero zero = refl
bit_length_from_zero (suc f) = refl

-- A positive number lies between two neighbouring powers of two, which its bit length names.
bit_length_from_bounds :
    (f n : ℕ)
    → 0 < n
    → n ≤ f
    → (b : ℕ) × (bit_length_from f n ≡ suc b) × (2 ^ b ≤ n) × (n < 2 * 2 ^ b)
bit_length_from_bounds zero n p h = absurd (omega arith)
bit_length_from_bounds (suc f) zero p h = absurd (omega arith)
bit_length_from_bounds (suc f) (suc zero) p h = (
  0,
  bit_length_from_step f 1 (omega arith) ∙ ap suc (bit_length_from_zero f),
  omega arith,
  omega arith,
)
bit_length_from_bounds (suc f) (suc (suc n)) p h =
    let (b, e, low, high) =
      bit_length_from_bounds f (suc (suc n) / 2) (omega arith) (omega arith) in
    let double : 2 ^ suc b ≡ 2 * 2 ^ b = pow-succ' 2 b in
    (suc b, bit_length_from_step f (suc (suc n)) (omega arith) ∙ ap suc e, omega arith, omega arith)

-- For at least two elements the split point is a power of two below the size, and at least half of it.
pub split_point_bounds :
    (n : ℕ) → 2 ≤ n → (b : ℕ) × (split_point n ≡ ok (2 ^ b)) × (2 ^ b < n) × (n ≤ 2 * 2 ^ b)
unfolding split_point bit_length
split_point_bounds zero h = elim h [ ]
split_point_bounds (suc n) h =
    let (b, e, low, high) = bit_length_from_bounds n n (omega arith) (omega arith) in
    (b, rw (e, split_point), omega arith, omega arith)
