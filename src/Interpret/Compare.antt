-- ===== src/Interpret/Compare.antt =====
-- The comparison opcodes of src/interpret.c.
pub mod Equality
pub mod Order
use sin.Interpret.Code.{binary}
use sin.Outcome.{Outcome, ok, undefined, ◌>>=◌}
use sin.Prelude.{ℕ, Bool, true, false, not, ◌==◌, if◌then◌else◌, str_eq}
use sin.Stack.{Stack}
use sin.Value.{ValueType, int, str, nil, bool, Value, bool_value, payload_i, payload_s}
use sin.Word.{lt64, le64}

-- Two ints or two bools, by the bits of their unions.
abbrev pub same_bits : Value → Value → Outcome Bool
same_bits v1 v2 = do i1 ← payload_i v1.payload; i2 ← payload_i v2.payload; ok (i1 == i2)

abbrev pub same_text : Value → Value → Outcome Bool
same_text v1 v2 = do s1 ← payload_s v1.payload; s2 ← payload_s v2.payload; ok (str_eq s1 s2)

abbrev pub equal_by : ValueType → ValueType → Value → Value → Outcome Bool
equal_by int int v1 v2 = same_bits v1 v2
equal_by str str v1 v2 = same_text v1 v2
equal_by bool bool v1 v2 = same_bits v1 v2
equal_by _ _ v1 v2 = ok false

unfoldable pub op_equal : Stack → Outcome Stack
unfolding binary str_eq
op_equal = binary λ v1 v2. equal_by v1.type v2.type v1 v2 >>= λ b. ok (bool_value b)

-- Mismatched types are not equal; two nils fall through to the final false.
abbrev pub not_equal_by : ValueType → ValueType → Value → Value → Outcome Bool
not_equal_by int int v1 v2 = do b ← same_bits v1 v2; ok (not b)
not_equal_by str str v1 v2 = do b ← same_text v1 v2; ok (not b)
not_equal_by bool bool v1 v2 = do b ← same_bits v1 v2; ok (not b)
not_equal_by nil nil v1 v2 = ok false
not_equal_by _ _ v1 v2 = ok true

unfoldable pub op_notequal : Stack → Outcome Stack
unfolding binary str_eq
op_notequal = binary λ v1 v2. not_equal_by v1.type v2.type v1 v2 >>= λ b. ok (bool_value b)

-- The four orders compare `v2.i` with `v1.i` on two ints or two bools; all else is false.
abbrev pub order_by : (ℕ → ℕ → Bool) → ValueType → ValueType → Value → Value → Outcome Bool
order_by test int int v1 v2 = do
  i1 ← payload_i v1.payload
  i2 ← payload_i v2.payload
  ok (test i2 i1)
order_by test bool bool v1 v2 = do
  i1 ← payload_i v1.payload
  i2 ← payload_i v2.payload
  ok (test i2 i1)
order_by test _ _ v1 v2 = ok false

abbrev pub order_values : (ℕ → ℕ → Bool) → Value → Value → Outcome Value
order_values test v1 v2 = order_by test v1.type v2.type v1 v2 >>= λ b. ok (bool_value b)

unfoldable pub op_lessthan : Stack → Outcome Stack
unfolding binary lt64
op_lessthan = binary (order_values λ i2 i1. lt64 i2 i1)

unfoldable pub op_lessthanorequal : Stack → Outcome Stack
unfolding binary le64
op_lessthanorequal = binary (order_values λ i2 i1. le64 i2 i1)

unfoldable pub op_greaterthan : Stack → Outcome Stack
unfolding binary lt64
op_greaterthan = binary (order_values λ i2 i1. lt64 i1 i2)

unfoldable pub op_greaterthanorequal : Stack → Outcome Stack
unfolding binary le64
op_greaterthanorequal = binary (order_values λ i2 i1. le64 i1 i2)
