-- ===== src/Word.antt =====
-- `int64_t` as its bit pattern, a number below 2 ^ 64. Sums, differences, products and negations
-- keep the low 64 bits, as the machine does; C leaves an overflow undefined.
pub mod Signed
pub mod Division
use sin.Outcome.{Outcome, ok, undefined}
use sin.Prelude.{ℕ, ◌+◌, ◌-◌, ◌*◌, ◌/◌, ◌%◌, ◌^◌, Bool, ◌&&◌, ltb, leb, ◌==◌, if◌then◌else◌}
use sin.Prelude.Int.{ℤ, pos, negsuc}

unfoldable pub add64 : ℕ → ℕ → ℕ
add64 a b = (a + b) % 2 ^ 64

unfoldable pub sub64 : ℕ → ℕ → ℕ
sub64 a b = (a + 2 ^ 64 - b) % 2 ^ 64

unfoldable pub mul64 : ℕ → ℕ → ℕ
mul64 a b = a * b % 2 ^ 64

unfoldable pub neg64 : ℕ → ℕ
neg64 a = (2 ^ 64 - a) % 2 ^ 64

-- `a < b` and `a <= b` on the signed values: the sign bit is flipped.
unfoldable pub lt64 : ℕ → ℕ → Bool
lt64 a b = ltb ((a + 2 ^ 63) % 2 ^ 64) ((b + 2 ^ 63) % 2 ^ 64)

unfoldable pub le64 : ℕ → ℕ → Bool
le64 a b = leb ((a + 2 ^ 63) % 2 ^ 64) ((b + 2 ^ 63) % 2 ^ 64)

abbrev pub is_negative : ℕ → Bool
is_negative a = leb (2 ^ 63) a

abbrev pub magnitude : ℕ → ℕ
magnitude a = if is_negative a then 2 ^ 64 - a else a

-- `a / b` rounds towards 0.
unfoldable pub quotient64 : ℕ → ℕ → ℕ
unfolding neg64
quotient64 a b =
    let q = magnitude a / magnitude b in
    if is_negative a
    then (if is_negative b then q else neg64 q)
    else (if is_negative b then neg64 q else q)

-- By 0, and of the least number by -1, it is undefined.
unfoldable pub div64 : ℕ → ℕ → Outcome ℕ
unfolding quotient64
div64 a b =
    if b == 0
    then undefined
    else if a == 2 ^ 63 && b == 2 ^ 64 - 1
    then undefined
    else ok (quotient64 a b)

-- The number that a bit pattern stands for.
abbrev pub signed64 : ℕ → ℤ
signed64 w = if ltb w (2 ^ 63) then pos w else negsuc (2 ^ 64 - w - 1)
