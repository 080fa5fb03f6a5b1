-- ===== src/Stack.antt =====
-- src/stack.h and src/stack.c: the value stack of a virtual machine.
pub mod Contents
pub mod Reset
pub mod Bounded
use sin.Outcome.{Outcome, ok, raised, undefined, ◌>>=◌}
use sin.Prelude.{
  ℕ, zero, suc, ◌+◌, ◌-◌, ◌≤◌, ◌<◌, ◌≡◌, refl, Bool, true, false, Option, none, some, List, [], ◌∷◌,
  ltb, ◌==◌, if◌then◌else◌,
}
use sin.Prelude.Int.{ℤ, pos, negsuc, pos_part, neg_part, sub_ℕ, ◌+ℤ◌, ◌-ℤ◌, ltb_ℤ, leb_ℤ}
use sin.Value.{ValueType, int, nil, word, Value, value_nil, is_str}

abbrev pub stack_size : ℕ
stack_size = 1024

-- `STACK_t`. The array is a function; every access checks its index against `stack_size`.
pub record Stack : Type 0 where
  pub max : ℤ
  pub current : ℤ
  pub base : ℤ
  pub locals : ℕ
  pub params : ℕ
  pub cells : ℕ → Value

abbrev pub update : (ℕ → Value) → ℕ → Value → ℕ → Value
update f i v j = if i == j then v else f j

-- `stack->stack[i]`
abbrev pub in_array : ℤ → Outcome ℕ
in_array (pos i) = if ltb i stack_size then ok i else undefined
in_array (negsuc i) = undefined

unfoldable pub read_cell : Stack → ℤ → Outcome Value
read_cell s i = do j ← in_array i; ok (s.cells j)

unfoldable pub write_cell : Stack → ℤ → Value → Outcome Stack
write_cell s i v = do j ← in_array i; ok (record s { cells = update s.cells j v })

-- The memory comes zeroed from `calloc`; tag 0 is `VALUE_int`.
unfoldable pub make_stack : Stack
make_stack = record {
  max = pos (stack_size - 1);
  current = negsuc 0;
  base = pos 0;
  locals = 0;
  params = 0;
  cells = λ _. record { type = int; payload = word 0 };
}

-- The cells `v .. v + n - 1` that hold a string: the loop of `reset_stack` frees what they point to.
unfoldable pub freed_cells : Stack → ℕ → ℕ → Outcome (List ℕ)
unfolding read_cell
freed_cells s zero v = ok []
freed_cells s (suc n) v = do
  val ← read_cell s (pos v)
  rest ← freed_cells s n (v + 1)
  ok (if is_str val.type then v ∷ rest else rest)

-- The stack, and the indices of the cells whose strings were freed.
unfoldable pub reset_stack : Stack → Outcome (Stack × List ℕ)
reset_stack s = do
  freed ← freed_cells s (pos_part (s.current +ℤ pos s.locals)) 0
  ok (record s { current = negsuc 0 }, freed)

-- `while (current > top) current--`, with fuel.
unfoldable pub lower_to : ℕ → ℤ → ℤ → ℤ
unfolding ◌-ℤ◌
lower_to zero top current = current
lower_to (suc fuel) top current =
    let rest = lower_to fuel top (current -ℤ pos 1) in if ltb_ℤ top current then rest else current

unfoldable pub reset_stack_to : Stack → ℤ → Stack
unfolding lower_to ◌-ℤ◌
reset_stack_to s top = record s { current = lower_to (pos_part (s.current -ℤ top)) top s.current }

unfoldable pub push_stack : Stack → Value → Outcome Stack
unfolding write_cell ◌+ℤ◌
push_stack s obj =
    if ltb_ℤ s.current s.max
    then (let s' = record s { current = s.current +ℤ pos 1 } in write_cell s' s'.current obj)
    else raised

-- The popped cell keeps its payload under the tag nil.
unfoldable pub pop_stack : Stack → Outcome (Value × Stack)
unfolding read_cell write_cell ◌-ℤ◌
pop_stack s =
    if leb_ℤ (pos 0) s.current
    then (do
      val ← read_cell s s.current
      s' ← write_cell s s.current (record val { type = nil })
      ok (val, record s' { current = s'.current -ℤ pos 1 }))
    else raised

-- Frees a string and clears the tag of the top; an empty stack is left alone.
unfoldable pub throwaway_stack : Stack → Outcome Stack
unfolding read_cell write_cell ◌-ℤ◌
throwaway_stack s =
    if leb_ℤ (pos 0) s.current
    then (do
      val ← read_cell s s.current
      s' ← write_cell s s.current (record val { type = nil })
      ok (record s' { current = s'.current -ℤ pos 1 }))
    else ok s

unfoldable pub peek_stack : Stack → Outcome Value
unfolding read_cell
peek_stack s = if leb_ℤ (pos 0) s.current then read_cell s s.current else ok value_nil

unfoldable pub size_stack : Stack → ℤ
unfolding ◌+ℤ◌ ◌-ℤ◌
size_stack s = s.current +ℤ pos 1 -ℤ pos s.locals
