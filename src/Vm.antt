-- ===== src/Vm.antt =====
-- src/vm.h and src/vm.c: a virtual machine is a value stack beside a call stack.
pub mod Frames
use sin.Outcome.{Outcome, ok, raised, undefined, ◌>>=◌}
use sin.Prelude.{ℕ, ◌+◌, ◌-◌, ltb, ◌==◌, if◌then◌else◌}
use sin.Prelude.Int.{ℤ, pos, negsuc, ◌+ℤ◌, ◌-ℤ◌, ltb_ℤ, leb_ℤ}
use sin.Stack.{Stack, make_stack, reset_stack_to}

abbrev pub callstack_size : ℕ
callstack_size = 1024

-- `FRAME_t`. An item is named by its place in the item store, and `nextop` is an offset into its
-- bytecode.
pub record Frame : Type 0 where
  pub item : ℕ
  pub nextop : ℕ
  pub current_stack : ℤ
  pub current_base : ℤ
  pub current_locals : ℕ
  pub current_params : ℕ

-- `CALLSTACK_t`
pub record CallStack : Type 0 where
  pub max : ℤ
  pub current : ℤ
  pub entry : ℕ → Frame

-- `VM_t`
pub record Vm : Type 0 where
  pub stack : Stack
  pub callstack : CallStack

abbrev pub in_entries : ℤ → Outcome ℕ
in_entries (pos i) = if ltb i callstack_size then ok i else undefined
in_entries (negsuc i) = undefined

abbrev pub set_entry : (ℕ → Frame) → ℕ → Frame → ℕ → Frame
set_entry f i v j = if i == j then v else f j

unfoldable pub make_callstack : CallStack
make_callstack = record {
  max = pos (callstack_size - 1);
  current = negsuc 0;
  entry = λ _. record {
    item = 0;
    nextop = 0;
    current_stack = pos 0;
    current_base = pos 0;
    current_locals = 0;
    current_params = 0;
  };
}

unfoldable pub make_vm : Vm
unfolding make_callstack make_stack
make_vm = record { stack = make_stack; callstack = make_callstack }

unfoldable pub push_callstack : Vm → ℕ → ℕ → ℕ → Outcome Vm
unfolding ◌+ℤ◌ ◌-ℤ◌
push_callstack vm item nextop args =
    if ltb_ℤ vm.callstack.current vm.callstack.max
    then (do
      let current = vm.callstack.current +ℤ pos 1
      i ← in_entries current
      let frame : Frame = record {
        item = item;
        nextop = nextop;
        current_stack = vm.stack.current -ℤ pos args;
        current_base = vm.stack.base;
        current_locals = vm.stack.locals;
        current_params = vm.stack.params;
      }
      ok (record {
        stack = record (vm.stack) { base = vm.stack.current +ℤ pos 1 -ℤ pos args };
        callstack = record (vm.callstack) {
          current = current;
          entry = set_entry vm.callstack.entry i frame;
        };
      }))
    else raised

-- The frame that was on top, and the machine that it puts back.
unfoldable pub pop_callstack : Vm → Outcome (Frame × Vm)
unfolding reset_stack_to ◌-ℤ◌
pop_callstack vm =
    if leb_ℤ (pos 0) vm.callstack.current
    then (do
      i ← in_entries vm.callstack.current
      let frame = vm.callstack.entry i
      let s = reset_stack_to vm.stack frame.current_stack
      ok (
        frame,
        record {
          stack = record s {
            locals = frame.current_locals;
            params = frame.current_params;
            base = frame.current_base;
          };
          callstack = record (vm.callstack) { current = vm.callstack.current -ℤ pos 1 };
        },
      ))
    else raised

unfoldable pub size_callstack : CallStack → ℤ
unfolding ◌+ℤ◌
size_callstack c = c.current +ℤ pos 1
