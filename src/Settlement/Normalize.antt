-- ===== src/Settlement/Normalize.antt =====
-- `normalize_hex`, `normalize_address` and `normalize_amount_str` of src/tc_ledger/cross_verify.py.
pub mod Shape
pub mod Lower
use tc_ledger.Prelude.{
  ℕ, zero, suc, ◌+◌, ◌-◌, ◌/◌, ◌%◌, ◌^◌, Bool, true, false, ◌&&◌, Option, none, some, [], ◌∷◌, ◌++◌,
  map, ◌==◌, if◌then◌else◌, length,
}
use tc_ledger.Py.Result.{Exception, Result, ok, err, value_error, overflow_error, ◌>>=◌}
use tc_ledger.Py.Int.{ℤ, pos, negsuc}
use tc_ledger.Py.Str.{Str, codes}
use tc_ledger.Py.Text.{strip, drop_0x, is_digits, is_hex_digits, ascii_lower, int_text}
use tc_ledger.Py.Text.Runtime.{Runtime, text_of}
use tc_ledger.Py.Json.{Json, Float, null, bool, int, str, dyadic, infinity, minus_infinity, nan}

-- `"0" + cleaned` for an odd number of digits
abbrev pub even_digits : Str → Str
even_digits s = if length s % 2 == 0 then s else b'0' ∷ s

unfoldable pub normalize_text : Str → Option Str
normalize_text text =
    let cleaned = drop_0x (strip text) in
    if is_hex_digits cleaned
    then some (codes "0x" ++ map ascii_lower (even_digits cleaned))
    else none

unfoldable pub normalize_hex : Json → Option Str
normalize_hex (str text) = normalize_text text
normalize_hex _ = none

abbrev pub of_length : ℕ → Option Str → Option Str
of_length n none = none
of_length n (some h) = if length h == n then some h else none

unfoldable pub normalize_address : Json → Option Str
normalize_address j = of_length 42 (normalize_hex j)

-- int(x) for a float: the fraction is cut off; -(m + 1) / 2 ^ k is cut to -((m + 1) / 2 ^ k).
abbrev pub negated : ℕ → ℤ
negated zero = pos 0
negated (suc n) = negsuc n

unfoldable pub truncate_float : Float → Result ℤ
truncate_float (dyadic (pos m) k) = ok (pos (m / 2 ^ k))
truncate_float (dyadic (negsuc m) k) = ok (negated ((m + 1) / 2 ^ k))
truncate_float infinity = err overflow_error
truncate_float minus_infinity = err overflow_error
truncate_float nan = err value_error

-- except ValueError: return None
abbrev pub none_for_value_error : Result Str → Result (Option Str)
none_for_value_error (ok s) = ok (some s)
none_for_value_error (err value_error) = ok none
none_for_value_error (err e) = err e

unfoldable pub normalize_amount_str : Runtime → Json → Result (Option Str)
normalize_amount_str rt (bool b) = ok (some (text_of rt (bool b)))
normalize_amount_str rt (int n) = ok (some (int_text n))
normalize_amount_str rt (str text) =
    if is_digits (strip text)
    then ok (some (strip text))
    else none_for_value_error
        (do f ← rt.parse_float (strip text); n ← truncate_float f; ok (int_text n))
normalize_amount_str rt _ = ok none
