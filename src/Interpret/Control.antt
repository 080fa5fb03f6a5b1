-- ===== src/Interpret/Control.antt =====
-- The opcodes of src/interpret.c that push literals, jump, or do nothing.
use sin.Interpret.Code.{little_endian, bytes_at, jump_by}
use sin.Outcome.{Outcome, ok, ◌>>=◌}
use sin.Prelude.{ℕ, ◌+◌, Bool, true, false, not, [], ◌∷◌, ◌==◌, if◌then◌else◌, Bytes, c_string}
use sin.Stack.{Stack, pop_stack, push_stack}
use sin.Value.{ValueType, int, str, nil, bool, Value, int_value, str_value, payload_i, payload_s}

unfoldable pub op_nop : Bytes → ℕ → Stack → Outcome (ℕ × Stack)
op_nop code nextop s = ok (nextop, s)

unfoldable pub op_undefined : Bytes → ℕ → Stack → Outcome (ℕ × Stack)
op_undefined code nextop s = ok (nextop, s)

unfoldable pub op_pushint : Bytes → ℕ → Stack → Outcome (ℕ × Stack)
unfolding little_endian
op_pushint code nextop s = do
  i ← little_endian 8 code nextop
  s' ← push_stack s (int_value i)
  ok (nextop + 8, s')

unfoldable pub op_pushstr : Bytes → ℕ → Stack → Outcome (ℕ × Stack)
unfolding little_endian bytes_at c_string
op_pushstr code nextop s = do
  len ← little_endian 2 code nextop
  chars ← bytes_at len code (nextop + 2)
  s' ← push_stack s (str_value (c_string chars))
  ok (nextop + 2 + len, s')

unfoldable pub op_jump : Bytes → ℕ → Stack → Outcome (ℕ × Stack)
unfolding little_endian jump_by
op_jump code nextop s = do
  offset ← little_endian 2 code nextop
  target ← jump_by nextop offset
  ok (target, s)

-- The test of `op_jumpfalse`: a bool or int that is not 0, or a string that is not empty.
abbrev pub jump_test : ValueType → Value → Outcome Bool
jump_test bool v = do i ← payload_i v.payload; ok (not (i == 0))
jump_test int v = do i ← payload_i v.payload; ok (not (i == 0))
jump_test str v = do s ← payload_s v.payload; ok (elim s [ [] ↦ false | c ∷ cs ↦ true ])
jump_test nil v = ok false

unfoldable pub op_jumpfalse : Bytes → ℕ → Stack → Outcome (ℕ × Stack)
unfolding little_endian jump_by
op_jumpfalse code nextop s = do
  (v1, s') ← pop_stack s
  taken ← jump_test v1.type v1
  if taken then ok (nextop + 2, s') else (do
    offset ← little_endian 2 code nextop
    target ← jump_by nextop offset
    ok (target, s'))
