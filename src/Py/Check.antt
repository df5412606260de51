-- ===== src/Py/Check.antt =====
-- Functions that verify: each step passes, or the function returns False, or an exception is raised.
use tc_ledger.Prelude.{◌≡◌, refl, Bool, true, false, Option, none, some, if◌then◌else◌}
use tc_ledger.Py.Result.{Exception, Result, ok, err}

pub data Check {ℓ} (A : Type ℓ) : Type ℓ where
  pass : A → Check A
  refuse : Check A
  raised : Exception → Check A

refuse_not_pass {ℓ} : {A : Type ℓ} {a : A} → ◌≡◌ {A = Check A} refuse (pass a) → ⊥
refuse_not_pass h = cc

raised_not_pass {ℓ} :
    {A : Type ℓ} {a : A} {e : Exception} → ◌≡◌ {A = Check A} (raised e) (pass a) → ⊥
raised_not_pass h = cc

module _ {ℓ κ} {A : Type ℓ} {B : Type κ} where
  infixl 5 ◌>>=◌
  abbrev pub ◌>>=◌ : Check A → (A → Check B) → Check B
  pass a >>= rest = rest a
  refuse >>= rest = refuse
  raised e >>= rest = raised e

  -- A check that passes has passed its first step: what follows from that and the rest.
  pub after {μ} :
      {R : Type μ} (step : Check A) (rest : A → Check B) {b : B}
      → (step >>= rest) ≡ pass b
      → ((a : A) → step ≡ pass a → rest a ≡ pass b → R)
      → R
  after (pass a) rest passed use_it = use_it a refl passed
  after refuse rest passed use_it = absurd (refuse_not_pass passed)
  after (raised e) rest passed use_it = absurd (raised_not_pass passed)

module _ {ℓ} {B : Type ℓ} where
  infixl 5 ◌>>◌
  abbrev pub ◌>>◌ : Check (Unit {0}) → Check B → Check B
  step >> rest = step >>= λ _. rest

-- `if not b: return False`
abbrev pub require : Bool → Check (Unit {0})
require b = if b then pass tt else refuse

module _ {ℓ} {A : Type ℓ} where
  -- `if not isinstance(x, ...): return False`, with the value at its type.
  abbrev pub demand : Option A → Check A
  demand none = refuse
  demand (some a) = pass a

  abbrev pub lift : Result A → Check A
  lift (ok a) = pass a
  lift (err e) = raised e

  -- `try: ... except: return False`, where every exception of the body is caught.
  abbrev pub attempt : Result A → Check A
  attempt (ok a) = pass a
  attempt (err e) = refuse

-- The value that the function returns.
abbrev pub verdict : Check (Unit {0}) → Result Bool
verdict (pass _) = ok true
verdict refuse = ok false
verdict (raised e) = err e

pub verdict-eq-true : (c : Check (Unit {0})) → verdict c ≡ ok true → c ≡ pass tt
verdict-eq-true (pass tt) h = refl
verdict-eq-true refuse h = cc
verdict-eq-true (raised e) h = cc

pub require_inversion : (b : Bool) {u : Unit {0}} → require b ≡ pass u → b ≡ true
require_inversion true h = refl
require_inversion false h = cc

pub attempt_inversion : {A : Type 0} (r : Result A) {a : A} → attempt r ≡ pass a → r ≡ ok a
attempt_inversion (ok b) h = cc
attempt_inversion (err e) h = cc

pub lift_inversion : {A : Type 0} (r : Result A) {a : A} → lift r ≡ pass a → r ≡ ok a
lift_inversion (ok b) h = cc
lift_inversion (err e) h = cc

pub demand_inversion : {A : Type 0} (o : Option A) {a : A} → demand o ≡ pass a → o ≡ some a
demand_inversion none h = cc
demand_inversion (some b) h = cc
