-- ===== src/Tests/OpRuns.antt =====
-- Runs of the opcodes of src/interpret.c.
use sin.Interpret.Code.{byte_at}
use sin.Interpret.Compare.Equality.{Decides, op_equal-Decides}
use sin.Interpret.Compare.Order.{Pushes, orders-int}
use sin.Interpret.Compare.{op_equal, op_notequal}
use sin.Interpret.Locals.Frame.{at_cell, set_cell, cell_of}
use sin.Interpret.Locals.RoundTrip.{getlocal-savelocal, getlocal-foreign}
use sin.Interpret.Locals.{op_savelocal, op_getlocal}
use sin.Outcome.{ok, ◌>>=◌, Returns}
use sin.Prelude.{
  ℕ, ◌-◌, ◌^◌, ◌<◌, ◌≡◌, refl, Bool, false, not, ◌&&◌, List, [], ◌∷◌, arith, codes, Bytes,
  if◌then◌else◌, replicate,
}
use sin.Prelude.Int.{ltb_ℤ, leb_ℤ}
use sin.Stack.Contents.{Holds}
use sin.Stack.{Stack}
use sin.Tests.Stacks.{at_bottom, frame_at, stack_of, stack_of-Holds}
use sin.Value.{Value, int, str, int_value, str_value, bool_value, value_nil, value_true, is_nil}
use sin.Word.{signed64}

-- -3 above 20, above a nil.
abbrev minus_3 : ℕ
minus_3 = 2 ^ 64 - 3

abbrev below : List Value
below = value_nil ∷ []

abbrev ints : List Value
ints = int_value minus_3 ∷ int_value 20 ∷ below

abbrev ints_stack : Stack
ints_stack = stack_of at_bottom ints

ints-Holds : Holds at_bottom ints ints_stack
ints-Holds = stack_of-Holds at_bottom ints (omega arith) refl

abbrev least_int : ℕ
least_int = 2 ^ 63

abbrev least_by_minus_1 : List Value
least_by_minus_1 = int_value (2 ^ 64 - 1) ∷ int_value least_int ∷ []

orders-int_example :
    let a = signed64 20 in
    let b = signed64 minus_3 in
    Pushes at_bottom below ints_stack (ltb_ℤ a b) (leb_ℤ a b) (ltb_ℤ b a) (leb_ℤ b a)
orders-int_example = orders-int below minus_3 20 (omega arith) (omega arith) ints-Holds

-- A string above an int, and an int above a string, a bool and a nil.
abbrev mixed : List Value
mixed = str_value (codes "go") ∷ int_value 20 ∷ below

abbrev mixed_stack : Stack
mixed_stack = stack_of at_bottom mixed

mixed-Holds : Holds at_bottom mixed mixed_stack
mixed-Holds = stack_of-Holds at_bottom mixed (omega arith) refl

abbrev int_on_true : List Value
int_on_true = int_value 4 ∷ value_true ∷ below

abbrev go : Value
go = str_value (codes "go")

op_equal-Decides_example :
    (b : Bool) × Decides b go (int_value 20)
    × Returns (op_equal mixed_stack) (Holds at_bottom (bool_value b ∷ below))
    × Returns
        (op_notequal mixed_stack)
        (Holds at_bottom (bool_value (if is_nil str && is_nil int then false else not b) ∷ below))
op_equal-Decides_example =
    op_equal-Decides (str_value (codes "go")) (int_value 20) below mixed-Holds tt (omega arith)

-- A jump by -2, back to itself.
abbrev jump_code : Bytes
jump_code = 0 ∷ 0 ∷ 254 ∷ 255 ∷ []

-- A frame at cell 1 with two locals, whose first one, cell 1, is to become the top, a string.
abbrev local_values : List Value
local_values = int_value 6 ∷ int_value 5 ∷ int_value 9 ∷ []

abbrev one_byte : Bytes
one_byte = 0 ∷ []

getlocal-savelocal_example :
    (s' : Stack) × (op_savelocal one_byte 0 (stack_of (frame_at 1 2) (go ∷ local_values))
        >>= (λ t. op_getlocal one_byte 0 t.1)
      ≡ ok (1, s'))
    × Holds (frame_at 1 2) (go ∷ set_cell local_values (cell_of 1 0) go) s'
unfolding byte_at
getlocal-savelocal_example =
    getlocal-savelocal one_byte 0 0 1 refl refl local_values go
      (stack_of-Holds (frame_at 1 2) (go ∷ local_values) (omega arith) refl) (omega arith)

-- A frame at cell 256, above as many values of its callers.
abbrev deep_values : List Value
deep_values = replicate 256 (int_value 1)

getlocal-foreign_example :
    (k : ℕ) × (k < 256)
    × (s' : Stack) × (op_getlocal one_byte 0 (stack_of (frame_at 256 0) deep_values) ≡ ok (1, s'))
    × Holds (frame_at 256 0) (at_cell deep_values k (int_value 0) ∷ deep_values) s'
unfolding byte_at
getlocal-foreign_example =
    getlocal-foreign one_byte 0 0 256 refl refl deep_values
      (stack_of-Holds (frame_at 256 0) deep_values (omega arith) refl) (omega arith) (omega arith)
      (omega arith)

abbrev two_locals : List Value
two_locals = int_value 5 ∷ int_value 9 ∷ []
