-- ===== src/Word/Division.antt =====
-- `div64` is the division of signed numbers that rounds towards 0.
use native.Mathlib.Nat.{div-add-mod}
use sin.Outcome.{Returns}
use sin.Prelude.Int.{ℤ, pos, negsuc, sub_ℕ}
use sin.Prelude.{ℕ, suc, ◌-◌, ◌/◌, ◌^◌, ◌<◌, ◌≤◌, ◌≡◌, ◌≢◌, true, arith, ◌⊎◌}
use sin.Word.{neg64, div64, quotient64, signed64, magnitude, is_negative}

abbrev pub quotient_ℤ : ℤ → ℤ → ℤ
quotient_ℤ (pos a) (pos b) = pos (a / b)
quotient_ℤ (pos a) (negsuc b) = sub_ℕ 0 (a / suc b)
quotient_ℤ (negsuc a) (pos b) = sub_ℕ 0 (suc a / b)
quotient_ℤ (negsuc a) (negsuc b) = pos (suc a / suc b)

div-le : (a b : ℕ) → 0 < b → a / b ≤ a
div-le a b h = grind (arith, div-add-mod a b)

div-lt : (a b : ℕ) → 1 < b → 0 < a → a / b < a
div-lt a b h p = grind (arith, div-add-mod a b)

module _ (a b : ℕ) (ha : a < 2 ^ 64) (hb : b < 2 ^ 64) (nz : b ≢ 0) where
  module _ (fits : (a ≢ 2 ^ 63) ⊎ (b ≢ 2 ^ 64 - 1)) where
    quotient_bound :
        is_negative a ≡ true → is_negative b ≡ true → magnitude a / magnitude b < 2 ^ 63
    quotient_bound na nb =
        grind (arith, div-le (magnitude a) (magnitude b), div-lt (magnitude a) (magnitude b))

    quotient64-signed64 : signed64 (quotient64 a b) ≡ quotient_ℤ (signed64 a) (signed64 b)
    unfolding quotient64 neg64
    quotient64-signed64 = ground (arith, div-le (magnitude a) (magnitude b), quotient_bound)

    quotient64-lt : quotient64 a b < 2 ^ 64
    unfolding quotient64 neg64
    quotient64-lt = ground (arith, div-le (magnitude a) (magnitude b))

    -- Where C defines it, the quotient of two `int64_t` stands for that of the numbers.
    pub div64-quotient_ℤ :
        Returns
          (div64 a b)
          (λ w. (w < 2 ^ 64) × (signed64 w ≡ quotient_ℤ (signed64 a) (signed64 b)))
    unfolding div64
    div64-quotient_ℤ = (quotient64 a b, ground arith, (quotient64-lt, quotient64-signed64))
