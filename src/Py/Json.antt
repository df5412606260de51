-- ===== src/Py/Json.antt =====
-- The values that `json.loads` returns, and what the sources ask of them.
use tc_ledger.Prelude.{
  ℕ, ◌+◌, ◌*◌, ◌^◌, ap, ◌≡◌, refl, Bool, true, false, not, Option, none, some, List, [], ◌∷◌, ◌==◌,
  if◌then◌else◌,
}
use tc_ledger.Py.Int.{ℤ, pos, negsuc, int_eq}
use tc_ledger.Py.Str.{Str, same}

-- A float is a dyadic fraction, m / 2 ^ k, or one of the values beside them.
pub data Float : Type 0 where
  dyadic : ℤ → ℕ → Float
  infinity minus_infinity nan : Float

mutual
  pub data Json : Type 0 where
    null : Json
    bool : Bool → Json
    int : ℤ → Json
    float : Float → Json
    str : Str → Json
    list : Items → Json
    dict : Fields → Json

  pub data Items : Type 0 where
    nil : Items
    cons : Json → Items → Items

  pub data Fields : Type 0 where
    end : Fields
    field : Str → Json → Fields → Fields

-- d.get(key): None for a missing key.
abbrev pub get : Fields → Str → Json
get end key = null
get (field name value rest) key = if same name key then value else get rest key

-- key in d
abbrev pub has_key : Fields → Str → Bool
has_key end key = false
has_key (field name value rest) key = if same name key then true else has_key rest key

abbrev pub elements : Items → List Json
elements nil = []
elements (cons j items) = j ∷ elements items

abbrev pub items_of : List Json → Items
items_of [] = nil
items_of (j ∷ js) = cons j (items_of js)

-- d.get(key, default): the default for a missing key.
abbrev pub get_default : Fields → Str → Json → Json
get_default fields key default = if has_key fields key then get fields key else default

-- bool(x)
abbrev pub truthy : Json → Bool
truthy null = false
truthy (bool b) = b
truthy (int (pos n)) = not (n == 0)
truthy (int (negsuc n)) = true
truthy (float (dyadic (pos m) k)) = not (m == 0)
truthy (float _) = true
truthy (str []) = false
truthy (str (c ∷ s)) = true
truthy (list nil) = false
truthy (list (cons j items)) = true
truthy (dict end) = false
truthy (dict (field name value rest)) = true

-- isinstance(x, dict), isinstance(x, str), isinstance(x, list)
abbrev pub as_dict : Json → Option Fields
as_dict (dict fields) = some fields
as_dict _ = none

abbrev pub as_str : Json → Option Str
as_str (str s) = some s
as_str _ = none

abbrev pub as_list : Json → Option (List Json)
as_list (list items) = some (elements items)
as_list _ = none

-- isinstance(x, int) and not isinstance(x, bool)
abbrev pub as_strict_int : Json → Option ℤ
as_strict_int (int n) = some n
as_strict_int _ = none

-- The integer of a bool.
abbrev pub bool_int : Bool → ℤ
bool_int true = pos 1
bool_int false = pos 0

-- isinstance(x, int): a bool is an int.
abbrev pub as_int : Json → Option ℤ
as_int (int n) = some n
as_int (bool b) = some (bool_int b)
as_int _ = none

-- m / 2 ^ k == n
abbrev pub dyadic_eq : ℤ → ℕ → ℤ → Bool
dyadic_eq (pos m) k (pos n) = m == n * 2 ^ k
dyadic_eq (negsuc m) k (negsuc n) = m + 1 == (n + 1) * 2 ^ k
dyadic_eq _ k _ = false

-- x == n for an int n: True is 1, and a float is compared by its value.
abbrev pub equals_int : Json → ℤ → Bool
equals_int (int m) n = int_eq m n
equals_int (bool b) n = int_eq (bool_int b) n
equals_int (float (dyadic m k)) n = dyadic_eq m k n
equals_int _ n = false

-- x == s for a str s
abbrev pub equals_str : Json → Str → Bool
equals_str (str s) t = same s t
equals_str _ t = false

-- x is not None
abbrev pub is_present : Json → Bool
is_present null = false
is_present _ = true

pub elements-items_of : (l : List Json) → elements (items_of l) ≡ l
elements-items_of [] = refl
elements-items_of (j ∷ l) = ap (λ t. j ∷ t) (elements-items_of l)

-- An optional trust anchor that is None, or equal.
abbrev pub anchor_str : Option Str → Str → Bool
anchor_str none s = true
anchor_str (some expected) s = same s expected

abbrev pub anchor_int : Option ℤ → Json → Bool
anchor_int none j = true
anchor_int (some expected) j = equals_int j expected
