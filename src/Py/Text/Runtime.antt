-- ===== src/Py/Text/Runtime.antt =====
-- What Python's library does with any text, and the model does not define: lower case beyond ASCII,
-- the text of floats and containers, and the numbers that a text denotes.
use tc_ledger.Prelude.{ℕ, ◌<◌, ◌≡◌, true, map, All}
use tc_ledger.Py.Result.{Result}
use tc_ledger.Py.Int.{ℤ}
use tc_ledger.Py.Str.{Str, codes}
use tc_ledger.Py.Json.{Json, Float, null, bool, int, str}
use tc_ledger.Prelude.{false}
use tc_ledger.Py.Text.{ascii_lower, int_text}

pub record Runtime : Type 0 where
  -- s.lower()
  pub lower : Str → Str
  pub lower_ascii : (s : Str) → All (λ c. c < 128) s → lower s ≡ map ascii_lower s
  -- str(x) for a float, a list or a dict
  pub show : Json → Str
  -- float(s)
  pub parse_float : Str → Result Float
  -- int(x // n), for a float x
  pub int_floordiv : Float → ℕ → Result ℤ
  -- int(s, base)
  pub parse_int : ℕ → Str → Result ℤ

-- str(x)
abbrev pub text_of : Runtime → Json → Str
text_of rt null = codes "None"
text_of rt (bool true) = codes "True"
text_of rt (bool false) = codes "False"
text_of rt (int n) = int_text n
text_of rt (str s) = s
text_of rt j = rt.show j
