-- ===== src/Record/Text.antt =====
-- What the verification of records uses of Python on texts: the characters of Base64, and its codec.
use tc_ledger.Prelude.{
  ℕ, ◌+◌, ◌-◌, ◌*◌, ◌/◌, ◌%◌, Bool, ◌&&◌, ◌||◌, [], ◌∷◌, ◌==◌, ltb, leb, if◌then◌else◌, length,
}
use tc_ledger.Py.Result.{Result, ok, err, value_error, ◌>>=◌}
use tc_ledger.Py.Text.{is_digit}
use tc_ledger.Py.Str.{Str, Bytes, codes, same}

-- [A-Za-z0-9_-]
abbrev pub is_base64url : ℕ → Bool
is_base64url c =
    (leb 0x41 c && leb c 0x5a) || (leb 0x61 c && leb c 0x7a) || is_digit c || c == 0x5f || c == 0x2d

-- s.rstrip("=")
unfoldable pub rstrip_padding : Str → Str
rstrip_padding [] = []
rstrip_padding (c ∷ s) =
    let rest = rstrip_padding s in if c == 0x3d && length rest == 0 then [] else c ∷ rest

-- s.replace(c, d), for characters
abbrev pub replace_char : ℕ → ℕ → Str → Str
replace_char c d [] = []
replace_char c d (x ∷ s) = (if x == c then d else x) ∷ replace_char c d s

-- The value of a character of the standard alphabet.
unfoldable pub sextet : ℕ → Result ℕ
sextet c =
    if leb 0x41 c && leb c 0x5a
    then ok (c - 0x41)
    else if leb 0x61 c && leb c 0x7a
    then ok (c - 0x61 + 26)
    else if is_digit c
    then ok (c - 0x30 + 52)
    else if c == 0x2b
    then ok 62
    else if c == 0x2f
    then ok 63
    else err value_error

-- base64.b64decode(s, validate=True)
unfoldable pub b64decode : Str → Result Bytes
b64decode [] = ok []
b64decode (a ∷ b ∷ c ∷ d ∷ s) = do
  rest ← b64decode s
  x ← sextet a
  y ← sextet b
  if same (c ∷ d ∷ []) (codes "==") && length s == 0 then ok ((x * 4 + y / 16) ∷ []) else (do
    z ← sextet c
    if d == 0x3d && length s == 0 then ok ((x * 4 + y / 16) ∷ (y % 16 * 16 + z / 4) ∷ []) else (do
      w ← sextet d
      ok ((x * 4 + y / 16) ∷ (y % 16 * 16 + z / 4) ∷ (z % 4 * 64 + w) ∷ rest)))
b64decode _ = err value_error

-- The character of a value in the URL-safe alphabet.
unfoldable pub base64url_char : ℕ → ℕ
base64url_char v =
    if ltb v 26
    then 0x41 + v
    else if ltb v 52
    then 0x61 + (v - 26)
    else if ltb v 62
    then 0x30 + (v - 52)
    else if v == 62
    then 0x2d
    else 0x5f

-- base64.urlsafe_b64encode(b)
unfoldable pub urlsafe_b64encode : Bytes → Str
urlsafe_b64encode [] = []
urlsafe_b64encode (a ∷ []) = base64url_char (a / 4) ∷ base64url_char (a % 4 * 16) ∷ codes "=="
urlsafe_b64encode (a ∷ b ∷ []) =
    base64url_char (a / 4)
    ∷ base64url_char (a % 4 * 16 + b / 16)
    ∷ base64url_char (b % 16 * 4)
    ∷ codes "="
urlsafe_b64encode (a ∷ b ∷ c ∷ rest) =
    base64url_char (a / 4)
    ∷ base64url_char (a % 4 * 16 + b / 16)
    ∷ base64url_char (b % 16 * 4 + c / 64)
    ∷ base64url_char (c % 64)
    ∷ urlsafe_b64encode rest
