-- ===== src/Merkle/PowerTest.antt =====
-- The test `m & (m - 1) == 0` of `verify_consistency_proof`, from the lowest bit of `m`.
use Prim.Native.Nat.{min, bit_and, digits, bit_and-bitwise}
use tc_ledger.Prelude.{ℕ, zero, suc, ◌+◌, ◌-◌, ◌*◌, ◌/◌, ◌%◌, ◌≤◌, ◌<◌, ◌≡◌, refl, ap, ◌==◌, arith}

abbrev conjunction : ℕ → ℕ → ℕ → ℕ
conjunction fuel a b = digits (λ _. zero) min fuel a b

conjunction_fuel : (f g a b : ℕ) → a ≤ f → a ≤ g → conjunction f a b ≡ conjunction g a b
conjunction_fuel zero zero a b p q = refl
conjunction_fuel zero (suc g) zero b p q = refl
conjunction_fuel zero (suc g) (suc a) b p q = absurd (omega arith)
conjunction_fuel (suc f) zero zero b p q = refl
conjunction_fuel (suc f) zero (suc a) b p q = absurd (omega arith)
conjunction_fuel (suc f) (suc g) zero b p q = refl
conjunction_fuel (suc f) (suc g) (suc a) b p q =
    omega (arith, conjunction_fuel f g (suc a / 2) (b / 2) (omega arith) (omega arith))

bit_and-low_digit : (a b : ℕ) → bit_and a b ≡ 2 * bit_and (a / 2) (b / 2) + min (a % 2) (b % 2)
bit_and-low_digit zero b = omega (arith, bit_and-bitwise 0 b, bit_and-bitwise 0 (b / 2))
bit_and-low_digit (suc a) b =
    let tail = conjunction_fuel a (suc a / 2) (suc a / 2) (b / 2) (omega arith) (omega arith) in
    omega (arith, bit_and-bitwise (suc a) b, bit_and-bitwise (suc a / 2) (b / 2), tail)

bit_and_self : (f n : ℕ) → n ≤ f → bit_and n n ≡ n
bit_and_self zero zero h = refl
bit_and_self zero (suc n) h = absurd (omega arith)
bit_and_self (suc f) zero h = refl
bit_and_self (suc f) (suc n) h =
    omega (arith, bit_and-low_digit (suc n) (suc n), bit_and_self f (suc n / 2) (omega arith))

-- Of an odd number only 1 passes.
pub power_test_odd : (m : ℕ) → m % 2 ≡ 1 → (bit_and m (m - 1) == 0) ≡ (m - 1 == 0)
power_test_odd m odd =
    let half : (m - 1) / 2 ≡ m / 2 = omega arith in
    let step : bit_and m (m - 1) ≡ 2 * bit_and (m / 2) ((m - 1) / 2) + min (m % 2) ((m - 1) % 2) =
      bit_and-low_digit m (m - 1) in
    let same_half : bit_and (m / 2) ((m - 1) / 2) ≡ m / 2 =
      rw half (bit_and_self (m / 2) (m / 2) (omega arith)) in
    let value : bit_and m (m - 1) ≡ m - 1 = omega arith in rw value

-- An even number passes exactly if its half does.
pub power_test_even :
    (m : ℕ) → 0 < m → m % 2 ≡ 0 → (bit_and m (m - 1) == 0) ≡ (bit_and (m / 2) (m / 2 - 1) == 0)
power_test_even m p even =
    let half : (m - 1) / 2 ≡ m / 2 - 1 = omega arith in
    let step : bit_and m (m - 1) ≡ 2 * bit_and (m / 2) ((m - 1) / 2) + min (m % 2) ((m - 1) % 2) =
      bit_and-low_digit m (m - 1) in
    let value : bit_and m (m - 1) ≡ 2 * bit_and (m / 2) (m / 2 - 1) =
      omega (arith, ap (λ t. bit_and (m / 2) t) half) in
    rw value (ground arith)
