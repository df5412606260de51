-- ===== src/Py/Str.antt =====
-- Strings and bytes: a `str` is its list of code points, a `bytes` its list of byte values.
use Prim.Native.Char.{code}
use Prim.Native.String.{String}
use mathlib.Core.Path.{ap₂}
use tc_ledger.Prelude.{
  ℕ, ◌≡◌, ◌<◌, refl, Bool, true, false, ◌&&◌, &&_true, List, [], ◌∷◌, ◌==◌, ==→eq, All, arith,
}

abbrev pub Str : Type 0
Str = List ℕ

abbrev pub Bytes : Type 0
Bytes = List ℕ

-- An argument that is `bytes` or `str`.
pub data BytesOrStr : Type 0 where
  raw : Bytes → BytesOrStr
  text : Str → BytesOrStr

-- Every element is a byte value.
abbrev pub IsBytes : Bytes → Type 0
IsBytes = All (λ b. b < 256)

-- The code points of a literal.
abbrev pub codes : String → Str
codes String.[] = []
codes (String.◌∷◌ c s) = code c ∷ codes s

-- a == b
abbrev pub same : List ℕ → List ℕ → Bool
same [] [] = true
same [] (y ∷ ys) = false
same (x ∷ xs) [] = false
same (x ∷ xs) (y ∷ ys) = x == y && same xs ys

pub same→eq : (xs ys : List ℕ) → same xs ys ≡ true → xs ≡ ys
same→eq [] [] h = refl
same→eq [] (y ∷ ys) h = cc
same→eq (x ∷ xs) [] h = cc
same→eq (x ∷ xs) (y ∷ ys) h =
    let both = &&_true (x == y) (same xs ys) h in
    ap₂ (λ a rest. a ∷ rest) (==→eq x y both.0) (same→eq xs ys both.1)

pub same_refl : (xs : List ℕ) → same xs xs ≡ true
same_refl [] = refl
same_refl (x ∷ xs) = ground (arith, same_refl xs)
