-- ===== src/Interpret/Logic.antt =====
-- The logical opcodes of src/interpret.c.
pub mod Truth
use sin.Interpret.Code.{binary}
use sin.Outcome.{Outcome, ok, undefined, ◌>>=◌}
use sin.Prelude.{ℕ, Bool, true, false, not, ◌&&◌, ◌||◌, ◌==◌, if◌then◌else◌}
use sin.Stack.{Stack, read_cell, write_cell}
use sin.Value.{ValueType, int, str, nil, bool, Value, bool_value, payload_i, convert_to_bool}

-- `switch` of `op_logicalnot`, on the value on top
abbrev pub negate_by : ValueType → Value → Outcome Value
negate_by bool v = do i ← payload_i v.payload; ok (bool_value (i == 0))
negate_by int v = do i ← payload_i v.payload; ok (bool_value (i == 0))
negate_by nil v = ok (bool_value true)
negate_by str v = ok (bool_value false)

unfoldable pub op_logicalnot : Stack → Outcome Stack
unfolding read_cell write_cell
op_logicalnot s = do v ← read_cell s s.current; r ← negate_by v.type v; write_cell s s.current r

-- Both operands are converted before either is read.
unfoldable pub logical : (Bool → Bool → Bool) → Value → Value → Outcome Value
unfolding convert_to_bool
logical test w1 w2 = do
  v1 ← convert_to_bool w1
  v2 ← convert_to_bool w2
  i1 ← payload_i v1.payload
  i2 ← payload_i v2.payload
  ok (bool_value (test (not (i1 == 0)) (not (i2 == 0))))

unfoldable pub op_logicaland : Stack → Outcome Stack
unfolding binary logical
op_logicaland = binary (logical λ a b. a && b)

unfoldable pub op_logicalor : Stack → Outcome Stack
unfolding binary logical
op_logicalor = binary (logical λ a b. a || b)
