-- ===== src/Itoa.antt =====
-- `itoa` of src/util.c in base 10, and the number that its digits spell.
use sin.Outcome.{Outcome, ok, undefined}
use sin.Prelude.{
  ℕ, zero, suc, ◌+◌, ◌-◌, ◌*◌, ◌/◌, ◌%◌, ◌^◌, ◌≤◌, [], ◌∷◌, ltb, ◌==◌, if◌then◌else◌, Bytes,
}

-- The digits of the loop, the lowest first: `do … while (temp)`, with fuel. The text is these
-- digits reversed.
unfoldable pub digits_from : ℕ → ℕ → Bytes
digits_from zero temp = []
digits_from (suc fuel) temp =
    let rest = digits_from fuel (temp / 10) in
    (48 + temp % 10) ∷ (if temp / 10 == 0 then [] else rest)

abbrev pub reverse_onto : Bytes → Bytes → Bytes
reverse_onto [] acc = acc
reverse_onto (c ∷ cs) acc = reverse_onto cs (c ∷ acc)

-- The digits in the order of the text; an `int` has at most ten.
unfoldable pub digits_of : ℕ → Bytes
digits_of value = reverse_onto (digits_from 10 value) []

-- The parameter is the bit pattern of an `int`, whose least value has no negation.
unfoldable pub itoa : ℕ → Outcome Bytes
itoa value =
    if ltb value (2 ^ 31)
    then ok (digits_of value)
    else if value == 2 ^ 31
    then undefined
    else ok (45 ∷ digits_of (2 ^ 32 - value))

-- The decimal digits, from 0 to 9.
abbrev pub AreDigits : Bytes → Type 0
AreDigits [] = Unit {0}
AreDigits (c ∷ cs) = (48 ≤ c) × (c ≤ 57) × AreDigits cs

-- The number that a text of digits spells.
abbrev pub spelled : ℕ → Bytes → ℕ
spelled n [] = n
spelled n (c ∷ cs) = spelled (10 * n + (c - 48)) cs

-- And the one that digits spell that stand the lowest first.
abbrev low_first : Bytes → ℕ
low_first [] = 0
low_first (c ∷ cs) = (c - 48) + 10 * low_first cs
