-- ===== src/Interpret/Locals.antt =====
-- The opcodes of src/interpret.c on local variables, which lie at the bottom of the frame.
pub mod Frame
pub mod RoundTrip
use sin.Interpret.Code.{byte_at}
use sin.Outcome.{Outcome, ok, undefined, ◌>>=◌}
use sin.Prelude.{ℕ, ◌+◌, ◌-◌, ◌%◌, Bool, ◌==◌, if◌then◌else◌, Bytes}
use sin.Prelude.Int.{ℤ, pos, negsuc, ◌+ℤ◌, ◌-ℤ◌}
use sin.Stack.{Stack, read_cell, write_cell}
use sin.Value.{ValueType, Value, word, payload_i, is_int}
use sin.Word.{add64, sub64}

-- A conversion to `uint8_t`.
abbrev pub to_u8 : ℤ → ℕ
to_u8 (pos n) = n % 256
to_u8 (negsuc n) = 255 - n % 256

-- `uint8_t index = *nextop + VM->stack->base`
unfoldable pub local_index : Bytes → ℕ → Stack → Outcome ℕ
unfolding byte_at ◌+ℤ◌
local_index code nextop s = do b ← byte_at code nextop; ok (to_u8 (pos b +ℤ s.base))

-- The body that `op_inclocal` and `op_declocal` share: a local that is no int is left as it is.
unfoldable pub change_local : (ℕ → ℕ) → Bytes → ℕ → Stack → Outcome (ℕ × Stack)
change_local f code nextop s = do
  index ← local_index code nextop s
  v ← read_cell s (pos index)
  if is_int v.type
      then (do
        i ← payload_i v.payload
        s' ← write_cell s (pos index) (record v { payload = word (f i) })
        ok (nextop + 1, s'))
      else ok (nextop + 1, s)

unfoldable pub op_inclocal : Bytes → ℕ → Stack → Outcome (ℕ × Stack)
op_inclocal = change_local λ i. add64 i 1

unfoldable pub op_declocal : Bytes → ℕ → Stack → Outcome (ℕ × Stack)
op_declocal = change_local λ i. sub64 i 1

-- The top is copied into the local and left, tag and all, above the new top.
unfoldable pub op_savelocal : Bytes → ℕ → Stack → Outcome (ℕ × Stack)
op_savelocal code nextop s = do
  index ← local_index code nextop s
  old ← read_cell s (pos index)
  v ← read_cell s s.current
  s' ← write_cell s (pos index) v
  ok (nextop + 1, record s' { current = s'.current -ℤ pos 1 })

-- The new top is not compared with `max`.
unfoldable pub op_getlocal : Bytes → ℕ → Stack → Outcome (ℕ × Stack)
op_getlocal code nextop s = do
  index ← local_index code nextop s
  let s' = record s { current = s.current +ℤ pos 1 }
  v ← read_cell s' (pos index)
  s'' ← write_cell s' s'.current v
  ok (nextop + 1, s'')
