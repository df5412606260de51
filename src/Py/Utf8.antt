-- ===== src/Py/Utf8.antt =====
-- `s.encode("utf-8")`: a lone surrogate is a UnicodeEncodeError.
pub mod Injective
use tc_ledger.Prelude.{ℕ, ◌+◌, ◌/◌, ◌%◌, ◌&&◌, [], ◌∷◌, ◌++◌, leb, ltb, if◌then◌else◌}
use tc_ledger.Py.Result.{Result, ok, err, unicode_encode_error, ◌>>=◌}
use tc_ledger.Py.Str.{Str, Bytes}

-- The bytes of one code point.
unfoldable pub encode_char : ℕ → Result Bytes
encode_char c =
    if ltb c 0x80
    then ok (c ∷ [])
    else if ltb c 0x800
    then ok ((0xc0 + c / 64) ∷ (0x80 + c % 64) ∷ [])
    else if leb 0xd800 c && leb c 0xdfff
    then err unicode_encode_error
    else if ltb c 0x10000
    then ok ((0xe0 + c / 4096) ∷ (0x80 + c / 64 % 64) ∷ (0x80 + c % 64) ∷ [])
    else ok
        ((0xf0 + c / 262144) ∷ (0x80 + c / 4096 % 64) ∷ (0x80 + c / 64 % 64) ∷ (0x80 + c % 64) ∷ [])

unfoldable pub utf8_encode : Str → Result Bytes
utf8_encode [] = ok []
utf8_encode (c ∷ cs) = do first ← encode_char c; rest ← utf8_encode cs; ok (first ++ rest)
