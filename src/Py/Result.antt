-- ===== src/Py/Result.antt =====
-- Exceptions as values: each Python function that may raise returns a `Result`.
use tc_ledger.Prelude.{◌≡◌, refl, Bool, true, false, not, Option, none, some, if◌then◌else◌}

-- The exception classes that the modelled code raises or catches; their messages are not modelled.
-- `out_of_fuel` has no counterpart in the program: a loop's bound was reached.
pub data Exception : Type 0 where
  type_error value_error index_error key_error attribute_error : Exception
  malformed_record unsupported_key_type invalid_signature : Exception
  unicode_decode_error unicode_encode_error json_decode_error os_error : Exception
  overflow_error evm_verification_error : Exception
  out_of_fuel : Exception

pub data Result {ℓ} (A : Type ℓ) : Type ℓ where
  ok : A → Result A
  err : Exception → Result A

-- `if b: raise e`
abbrev pub raise_if : Bool → Exception → Result (Unit {0})
raise_if b e = if b then err e else ok tt

module _ {ℓ κ} {A : Type ℓ} {B : Type κ} where
  infixl 5 ◌>>=◌
  -- What follows a call runs only if the call returns.
  abbrev pub ◌>>=◌ : Result A → (A → Result B) → Result B
  err e >>= rest = err e
  ok a >>= rest = rest a

  pub >>=-eq-ok :
      (call : Result A) (rest : A → Result B) {b : B}
      → (call >>= rest) ≡ ok b
      → (a : A) × (call ≡ ok a) × (rest a ≡ ok b)
  >>=-eq-ok (err e) rest returned = cc
  >>=-eq-ok (ok a) rest returned = (a, refl, returned)

module _ {ℓ} {B : Type ℓ} where
  infixl 5 ◌>>◌
  abbrev pub ◌>>◌ : Result (Unit {0}) → Result B → Result B
  check >> rest = check >>= λ _. rest

pub ok_value {ℓ} : {A : Type ℓ} {a b : A} → ◌≡◌ {A = Result A} (ok a) (ok b) → a ≡ b
ok_value h = cc

-- What did not raise.
pub raise_if_inversion : (b : Bool) (e : Exception) {u : Unit {0}} → raise_if b e ≡ ok u → b ≡ false
raise_if_inversion true e h = cc
raise_if_inversion false e h = refl

-- A call that found nothing found no value.
pub nothing_found {ℓ} :
    {A : Type ℓ} {a : A} → ◌≡◌ {A = Result (Option A)} (ok none) (ok (some a)) → ⊥
nothing_found h = cc

-- What was required.
pub raise_if-not : (b : Bool) (e : Exception) {u : Unit {0}} → raise_if (not b) e ≡ ok u → b ≡ true
raise_if-not true e h = refl
raise_if-not false e h = cc
