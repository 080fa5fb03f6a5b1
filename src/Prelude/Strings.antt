-- ===== src/Prelude/Strings.antt =====
-- C strings as lists of bytes without the final null, and `strcmp` as a test.
use Prim.Native.Nat.{ℕ}
use Prim.Native.Char.{code}
use Prim.Native.String.{String}
use mathlib.Core.Logic.{◌≢◌}
use mathlib.Core.Path.{◌≡◌, refl}
use mathlib.Core.Bool.{Bool, true, false, ◌&&◌}
use mathlib.Core.List.{List, [], ◌∷◌}
use native.Mathlib.Omega.{arith}
use sin.Prelude.Tests.{◌==◌, if◌then◌else◌}

abbrev pub Bytes : Type 0
Bytes = List ℕ

-- The bytes of an ASCII literal.
abbrev pub codes : String → Bytes
codes String.[] = []
codes (String.◌∷◌ c s) = code c ∷ codes s

-- The bytes up to the first null: what a `char *` to the copied literal stands for.
unfoldable pub c_string : Bytes → Bytes
c_string [] = []
c_string (b ∷ bs) = if b == 0 then [] else b ∷ c_string bs

-- No byte is a null.
abbrev pub AreChars : Bytes → Type 0
AreChars [] = Unit {0}
AreChars (c ∷ cs) = (c ≢ 0) × AreChars cs

pub c_string-chars : (s : Bytes) → AreChars s → c_string s ≡ s
unfolding c_string
c_string-chars [] h = refl
c_string-chars (c ∷ s) (ne, h) = ground (arith, c_string-chars s h)

-- `strcmp(a, b) == 0`
unfoldable pub str_eq : Bytes → Bytes → Bool
str_eq [] [] = true
str_eq (a ∷ r) (b ∷ bs) = a == b && str_eq r bs
str_eq _ _ = false

pub str_eq_refl : (a : Bytes) → str_eq a a ≡ true
unfolding str_eq
str_eq_refl [] = refl
str_eq_refl (a ∷ xs) = ground (arith, str_eq_refl xs)

pub str_eq→eq : (a b : Bytes) → str_eq a b ≡ true → a ≡ b
unfolding str_eq
str_eq→eq [] [] h = refl
str_eq→eq [] (b ∷ bs) h = ground arith
str_eq→eq (a ∷ xs) [] h = ground arith
str_eq→eq (a ∷ xs) (b ∷ bs) h = ground (arith, str_eq→eq xs bs)
