-- ===== src/Interpret/Arith/Ints.antt =====
-- The arithmetic opcodes of src/interpret.c on ints, as operations on signed numbers.
use sin.Interpret.Arith.{op_add, op_subtract, op_multiply, op_divide, op_negate}
use sin.Interpret.Binary.{binary-Holds}
use sin.Outcome.{Outcome, undefined, Returns}
use sin.Prelude.Int.{ℤ, pos, ◌+ℤ◌, ◌-ℤ◌, ◌*ℤ◌}
use sin.Prelude.{ℕ, ◌-◌, ◌^◌, ◌<◌, ◌≡◌, ◌≢◌, ◌⊎◌, refl, List, ◌∷◌, arith}
use sin.Stack.Contents.{Registers, Holds, pop_stack-Holds, read_top, write_top-Holds}
use sin.Stack.{Stack}
use sin.Value.{Value, int_value}
use sin.Word.Division.{quotient_ℤ, div64-quotient_ℤ}
use sin.Word.Signed.{FitsInt64, add64-signed64, sub64-signed64, mul64-signed64}
use sin.Word.{add64, sub64, mul64, neg64, signed64}

-- `w` is the bit pattern of `a`.
abbrev pub Represents : ℤ → ℕ → Type 0
Represents a w = (w < 2 ^ 64) × (signed64 w ≡ a)

-- The opcode returns and leaves the number `a` above `xs`.
abbrev pub Leaves : Registers → List Value → ℤ → Outcome Stack → Type 0
Leaves r xs a m = (w : ℕ) × Represents a w × Returns m (Holds r (int_value w ∷ xs))

module _ {r : Registers} (xs : List Value) {s : Stack} (a b : ℕ) (ha : a < 2 ^ 64) (hb : b < 2 ^ 64)
    (h : Holds r (int_value a ∷ int_value b ∷ xs) s) where
  -- `op_add` of two ints pushes their sum, where the sum fits an `int64_t`.
  pub op_add-int :
      FitsInt64 (signed64 b +ℤ signed64 a) → Leaves r xs (signed64 b +ℤ signed64 a) (op_add s)
  unfolding op_add add64
  op_add-int fits = (
    add64 b a,
    (omega arith, add64-signed64 b a hb ha fits),
    binary-Holds _ (int_value a) (int_value b) _ xs refl h,
  )

  -- `op_subtract` of two ints pushes the lower one less the upper one, where that fits an `int64_t`.
  pub op_subtract-int :
      FitsInt64 (signed64 b -ℤ signed64 a) → Leaves r xs (signed64 b -ℤ signed64 a) (op_subtract s)
  unfolding op_subtract sub64
  op_subtract-int fits = (
    sub64 b a,
    (omega arith, sub64-signed64 b a hb ha fits),
    binary-Holds _ (int_value a) (int_value b) _ xs refl h,
  )

  -- `op_multiply` of two ints pushes their product, where the product fits an `int64_t`.
  pub op_multiply-int :
      FitsInt64 (signed64 b *ℤ signed64 a) → Leaves r xs (signed64 b *ℤ signed64 a) (op_multiply s)
  unfolding op_multiply mul64
  op_multiply-int fits = (
    mul64 b a,
    (omega arith, mul64-signed64 b a hb ha fits),
    binary-Holds _ (int_value a) (int_value b) _ xs refl h,
  )

  -- `op_divide` of two ints pushes the quotient of the lower one by the upper one, rounded towards
  -- 0, where the divisor is not 0 and the quotient is not that of the least int by -1.
  pub op_divide-int :
      a ≢ 0
      → (b ≢ 2 ^ 63) ⊎ (a ≢ 2 ^ 64 - 1)
      → Leaves r xs (quotient_ℤ (signed64 b) (signed64 a)) (op_divide s)
  unfolding op_divide
  op_divide-int nz fits =
      let (w, e, (lt, q)) = div64-quotient_ℤ b a hb ha nz fits in
      (w, (lt, q), binary-Holds _ (int_value a) (int_value b) (int_value w) xs (ground arith) h)

  -- The one quotient that overflows, of the least int by -1, is not trapped.
  pub op_divide-overflow : b ≡ 2 ^ 63 → a ≡ 2 ^ 64 - 1 → op_divide s ≡ undefined
  unfolding op_divide
  op_divide-overflow eb ea =
      let (s1, p1, h1) = pop_stack-Holds (int_value a) (int_value b ∷ xs) h in
      let (s2, p2, h2) = pop_stack-Holds (int_value b) xs h1 in rw (p1, p2, ea, eb) refl

  -- Division of an int by 0 pushes 0.
  pub op_divide-zero : a ≡ 0 → Returns (op_divide s) (Holds r (int_value 0 ∷ xs))
  unfolding op_divide
  op_divide-zero e = binary-Holds _ (int_value a) (int_value b) (int_value 0) xs (rw e) h

module _ {r : Registers} (xs : List Value) {s : Stack} (a : ℕ) (ha : a < 2 ^ 64)
    (h : Holds r (int_value a ∷ xs) s) where
  -- `op_negate` replaces an int by its negation, where that fits an `int64_t`.
  pub op_negate-int :
      FitsInt64 (pos 0 -ℤ signed64 a) → Leaves r xs (pos 0 -ℤ signed64 a) (op_negate s)
  unfolding op_negate neg64 ◌-ℤ◌
  op_negate-int fits = (
    neg64 a,
    (omega arith, ground arith),
    rw (read_top (int_value a) xs h) (write_top-Holds (int_value a) _ xs h),
  )
