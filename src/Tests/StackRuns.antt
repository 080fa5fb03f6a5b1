-- ===== src/Tests/StackRuns.antt =====
-- Runs of src/stack.c and src/vm.c.
use sin.Outcome.{ok}
use sin.Prelude.{◌≡◌, refl, List, [], ◌∷◌, arith, codes}
use sin.Prelude.Int.{pos}
use sin.Stack.Bounded.{push, pop, Refines, HoldsBelow, push_stack-Refines, pop_stack-Refines}
use sin.Stack.Contents.{Holds}
use sin.Stack.{push_stack, pop_stack}
use sin.Tests.Stacks.{at_bottom, frame_at, stack_of, stack_of-Holds}
use sin.Value.{Value, int_value, str_value, value_nil}
use sin.Vm.Frames.{IsAt, call-return}
use sin.Vm.{Frame, Vm, make_callstack, push_callstack, pop_callstack, set_entry}

abbrev two_values : List Value
two_values = int_value 7 ∷ str_value (codes "north") ∷ []

push_stack-Refines_example :
    Refines
      (Holds at_bottom)
      (push value_nil two_values)
      (push_stack (stack_of at_bottom two_values) value_nil)
push_stack-Refines_example =
    push_stack-Refines value_nil two_values (stack_of-Holds at_bottom two_values (omega arith) refl)

pop_stack-Refines_example :
    Refines (HoldsBelow at_bottom) (pop two_values) (pop_stack (stack_of at_bottom two_values))
pop_stack-Refines_example =
    pop_stack-Refines two_values (stack_of-Holds at_bottom two_values (omega arith) refl)

-- A caller with one value below two arguments, which calls item 5 at offset 9.
abbrev caller_values : List Value
caller_values = int_value 1 ∷ int_value 2 ∷ int_value 3 ∷ []

abbrev caller : Vm
unfolding make_callstack
caller = record { stack = stack_of at_bottom caller_values; callstack = make_callstack }

abbrev saved : Frame
saved = record {
  item = 5;
  nextop = 9;
  current_stack = pos 0;
  current_base = pos 0;
  current_locals = 0;
  current_params = 0;
}

abbrev entered : Vm
unfolding make_callstack
entered = record {
  stack = record (stack_of at_bottom caller_values) { base = pos 1 };
  callstack = record make_callstack {
    current = pos 0;
    entry = set_entry make_callstack.entry 0 saved;
  };
}

-- The callee left four values above the caller's one, and two locals in its registers.
abbrev callee_values : List Value
callee_values = value_nil ∷ int_value 8 ∷ int_value 1 ∷ int_value 2 ∷ int_value 3 ∷ []

abbrev returning : Vm
unfolding entered
returning = record entered { stack = stack_of (frame_at 1 2) callee_values }

call-return_example :
    (frame : Frame) × (vm' : Vm) × (pop_callstack returning ≡ ok (frame, vm'))
    × (frame.item ≡ 5)
    × (frame.nextop ≡ 9)
    × IsAt 0 vm'.callstack
    × Holds at_bottom (int_value 3 ∷ []) vm'.stack
unfolding push_callstack make_callstack entered returning caller
call-return_example =
    call-return (int_value 1 ∷ int_value 2 ∷ []) (int_value 3 ∷ [])
      (value_nil ∷ int_value 8 ∷ int_value 1 ∷ int_value 2 ∷ []) 5 9 0 {vm = caller}
      {entered = entered} {returning = returning}
      (stack_of-Holds at_bottom caller_values (omega arith) refl)
      (record { limit = refl; top = refl }) (omega arith) refl (record { limit = refl; top = refl })
      refl (stack_of-Holds (frame_at 1 2) callee_values (omega arith) refl)
