-- ===== src/Interpret/Code.antt =====
-- Operands of the bytecode, which `nextop` points to. An offset outside the code is undefined.
use sin.Outcome.{Outcome, ok, undefined, ◌>>=◌, from_option}
use sin.Prelude.{
  ℕ, zero, suc, ◌+◌, ◌-◌, ◌*◌, ◌^◌, [], ◌∷◌, get_elem?, ltb, leb, if◌then◌else◌, Bytes,
}
use sin.Stack.{Stack, pop_stack, push_stack}
use sin.Value.{Value}

-- `*nextop`
unfoldable pub byte_at : Bytes → ℕ → Outcome ℕ
byte_at code i = from_option (get_elem? code i)

-- `n` bytes, the least significant first: `*(int64_t*)nextop`, and `memcpy` into a `uint16_t`.
unfoldable pub little_endian : ℕ → Bytes → ℕ → Outcome ℕ
unfolding byte_at
little_endian zero code i = ok 0
little_endian (suc n) code i = do
  b ← byte_at code i
  rest ← little_endian n code (i + 1)
  ok (b + 256 * rest)

-- `memcpy(dest, nextop, n)`
unfoldable pub bytes_at : ℕ → Bytes → ℕ → Outcome Bytes
unfolding byte_at
bytes_at zero code i = ok []
bytes_at (suc n) code i = do b ← byte_at code i; rest ← bytes_at n code (i + 1); ok (b ∷ rest)

-- `nextop + offset` for an `int16_t offset`. A pointer before the code is undefined.
unfoldable pub jump_by : ℕ → ℕ → Outcome ℕ
jump_by nextop offset =
    if ltb offset (2 ^ 15)
    then ok (nextop + offset)
    else if leb (2 ^ 16) (nextop + offset)
    then ok (nextop + offset - 2 ^ 16)
    else undefined

-- Pop two values, the first from the top, and push what `f` makes of them.
unfoldable pub binary : (Value → Value → Outcome Value) → Stack → Outcome Stack
binary f s = do (v1, s1) ← pop_stack s; (v2, s2) ← pop_stack s1; v ← f v1 v2; push_stack s2 v
