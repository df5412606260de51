-- ===== src/Py/Int.antt =====
-- Python's unbounded integers.
use tc_ledger.Prelude.{ℕ, ◌≡◌, Bool, true, false, ◌==◌, leb, arith}

-- `negsuc n` is -(n + 1).
pub data ℤ : Type 0 where
  pos : ℕ → ℤ
  negsuc : ℕ → ℤ

-- n < 0
abbrev pub is_negative : ℤ → Bool
is_negative (pos n) = false
is_negative (negsuc n) = true

-- m == n
abbrev pub int_eq : ℤ → ℤ → Bool
int_eq (pos m) (pos n) = m == n
int_eq (negsuc m) (negsuc n) = m == n
int_eq _ _ = false

-- m <= n
abbrev pub int_le : ℤ → ℤ → Bool
int_le (pos m) (pos n) = leb m n
int_le (pos m) (negsuc n) = false
int_le (negsuc m) (pos n) = true
int_le (negsuc m) (negsuc n) = leb n m

pub int_eq→eq : (m n : ℤ) → int_eq m n ≡ true → m ≡ n
int_eq→eq (pos m) (pos n) h = ground arith
int_eq→eq (negsuc m) (negsuc n) h = ground arith
int_eq→eq (pos m) (negsuc n) h = cc
int_eq→eq (negsuc m) (pos n) h = cc

pub int_eq_refl : (m : ℤ) → int_eq m m ≡ true
int_eq_refl (pos m) = ground arith
int_eq_refl (negsuc m) = ground arith
