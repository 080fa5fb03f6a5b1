-- ===== src/Interpret/Arith.antt =====
-- The arithmetic opcodes of src/interpret.c.
pub mod Ints
pub mod Mixed
use sin.Interpret.Code.{binary}
use sin.Outcome.{Outcome, ok, undefined, ◌>>=◌}
use sin.Prelude.{ℕ, Bool, true, false, ◌&&◌, ◌||◌, ◌++◌, ◌==◌, if◌then◌else◌}
use sin.Prelude.Int.{ℤ}
use sin.Stack.{Stack, read_cell, write_cell}
use sin.Value.{
  ValueType, int, str, Payload, word, text, Value, int_value, str_value, value_nil, payload_i,
  payload_s, is_int, is_nil, is_str,
}
use sin.Word.{add64, sub64, mul64, neg64, div64}

-- Nil counts as 0 by the bits that its union holds.
unfoldable pub add_values : Value → Value → Outcome Value
unfolding add64
add_values v1 v2 =
    if (is_nil v1.type || is_int v1.type) && (is_nil v2.type || is_int v2.type)
    then (do i1 ← payload_i v1.payload; i2 ← payload_i v2.payload; ok (int_value (add64 i2 i1)))
    else if is_str v1.type && is_str v2.type
    then (do s1 ← payload_s v1.payload; s2 ← payload_s v2.payload; ok (str_value (s2 ++ s1)))
    else ok value_nil

unfoldable pub op_add : Stack → Outcome Stack
unfolding binary add_values
op_add = binary add_values

-- Each of the next three tests `v1.type` twice and never `v2.type`.
unfoldable pub subtract_values : Value → Value → Outcome Value
unfolding sub64
subtract_values v1 v2 =
    if is_int v1.type && is_int v1.type
    then (do i1 ← payload_i v1.payload; i2 ← payload_i v2.payload; ok (int_value (sub64 i2 i1)))
    else ok value_nil

unfoldable pub op_subtract : Stack → Outcome Stack
unfolding binary subtract_values
op_subtract = binary subtract_values

-- The type is set to int at the end, on the failing branch too.
unfoldable pub divide_values : Value → Value → Outcome Value
unfolding div64
divide_values v1 v2 =
    if is_int v1.type && is_int v1.type
    then (do
      i1 ← payload_i v1.payload
      if i1 == 0
          then ok (int_value 0)
          else (do i2 ← payload_i v2.payload; q ← div64 i2 i1; ok (int_value q)))
    else ok (record { type = int; payload = (value_nil).payload })

unfoldable pub op_divide : Stack → Outcome Stack
unfolding binary divide_values
op_divide = binary divide_values

unfoldable pub multiply_values : Value → Value → Outcome Value
unfolding mul64
multiply_values v1 v2 =
    if is_int v1.type && is_int v1.type
    then (do i1 ← payload_i v1.payload; i2 ← payload_i v2.payload; ok (int_value (mul64 i2 i1)))
    else ok value_nil

unfoldable pub op_multiply : Stack → Outcome Stack
unfolding binary multiply_values
op_multiply = binary multiply_values

-- In place; a top that is no int is left as it is.
unfoldable pub op_negate : Stack → Outcome Stack
unfolding neg64 read_cell write_cell
op_negate s = do
  v ← read_cell s s.current
  if is_int v.type
      then (do
        i ← payload_i v.payload
        write_cell s s.current (record v { payload = word (neg64 i) }))
      else ok s
