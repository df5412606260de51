-- ===== src/Py/Text.antt =====
-- What the sources use of Python on texts: white space, case, digits, numbers in text.
pub mod Runtime
use tc_ledger.Prelude.{
  ℕ, zero, suc, ◌+◌, ◌-◌, ◌*◌, ◌/◌, ◌%◌, Bool, true, false, ◌&&◌, ◌||◌, List, [], ◌∷◌, ◌++◌, map,
  ◌==◌, ltb, leb, if◌then◌else◌, length, take,
}
use tc_ledger.Py.Int.{ℤ, pos, negsuc}
use tc_ledger.Py.Str.{Str, codes, same}

abbrev pub all_chars : (ℕ → Bool) → Str → Bool
all_chars p [] = true
all_chars p (c ∷ s) = p c && all_chars p s

-- [0-9]
abbrev pub is_digit : ℕ → Bool
is_digit c = leb 0x30 c && leb c 0x39

-- The decimal digits of a number, in front of those already written; `n + 1` is fuel enough.
unfoldable pub decimal_from : ℕ → ℕ → Str → Str
decimal_from zero n written = written
decimal_from (suc fuel) n written =
    let longer = decimal_from fuel (n / 10) ((0x30 + n % 10) ∷ written) in
    if ltb n 10 then (0x30 + n) ∷ written else longer

-- str(n)
unfoldable pub decimal : ℕ → Str
decimal n = decimal_from (suc n) n []

-- str(n), for an int
abbrev pub int_text : ℤ → Str
int_text (pos n) = decimal n
int_text (negsuc n) = b'-' ∷ decimal (suc n)

-- s.startswith(prefix)
abbrev pub starts_with : Str → Str → Bool
starts_with s prefix = same (take (length prefix) s) prefix

-- s.endswith(c), for one character
abbrev pub ends_with_char : Str → ℕ → Bool
ends_with_char [] c = false
ends_with_char (d ∷ []) c = d == c
ends_with_char (d ∷ e ∷ s) c = ends_with_char (e ∷ s) c

-- c.isspace()
unfoldable pub is_space : ℕ → Bool
is_space c =
    (leb 9 c && leb c 13)
    || (leb 28 c && leb c 32)
    || c == 0x85
    || c == 0xa0
    || c == 0x1680
    || (leb 0x2000 c && leb c 0x200a)
    || c == 0x2028
    || c == 0x2029
    || c == 0x202f
    || c == 0x205f
    || c == 0x3000

unfoldable pub lstrip : Str → Str
lstrip [] = []
lstrip (c ∷ s) = let rest = lstrip s in if is_space c then rest else c ∷ s

unfoldable pub rstrip : Str → Str
rstrip [] = []
rstrip (c ∷ s) = let rest = rstrip s in if is_space c && length rest == 0 then [] else c ∷ rest

-- s.strip()
unfoldable pub strip : Str → Str
strip s = lstrip (rstrip s)

-- The lower case of an ASCII character.
unfoldable pub ascii_lower : ℕ → ℕ
ascii_lower c = if leb b'A' c && leb c b'Z' then c + 32 else c

-- [0-9a-fA-F]
unfoldable pub is_hex_digit : ℕ → Bool
is_hex_digit c =
    (leb b'0' c && leb c b'9') || (leb b'a' c && leb c b'f') || (leb b'A' c && leb c b'F')

-- s[2:] where s starts with "0x" or "0X"
abbrev pub drop_0x : Str → Str
drop_0x (c ∷ d ∷ s) = if c == b'0' && (d == b'x' || d == b'X') then s else c ∷ d ∷ s
drop_0x s = s

-- re.fullmatch(r"[0-9]+", s)
abbrev pub is_digits : Str → Bool
is_digits s = leb 1 (length s) && all_chars is_digit s

-- re.fullmatch(r"[0-9a-fA-F]+", s)
abbrev pub is_hex_digits : Str → Bool
is_hex_digits s = leb 1 (length s) && all_chars is_hex_digit s
