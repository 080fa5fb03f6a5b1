-- ===== src/Tests/SdissRuns.antt =====
-- Runs of src/sdiss.c, against src/interpret.c.
use sin.Interpret.Code.{byte_at, little_endian}
use sin.Interpret.Control.{op_pushint}
use sin.Interpret.Loop.{opcodes, op_at, interpret}
use sin.Interpret.Machine.{Machine}
use sin.Outcome.{ok}
use sin.Prelude.{◌≡◌, refl, [], ◌∷◌, Bytes}
use sin.Sdiss.Follows.{list_opcode-follows}
use sin.Sdiss.Straight.{Lists, is_pushint}
use sin.Sdiss.{add, list_opcodes, list_opcode}
use sin.Stack.{push_stack, write_cell}
use sin.Tests.MachineRuns.{quiet_host, no_compiler}
use sin.Tests.ItemRuns.{small_store}
use sin.Tests.Stacks.{at_bottom, stack_of}
use sin.Vm.{make_callstack}

-- A machine without values.
abbrev still : Machine
unfolding make_callstack
still = record {
  vm = record { stack = stack_of at_bottom []; callstack = make_callstack };
  store = small_store;
  root = 0;
  host = quiet_host;
}

-- `push 7`, and the end.
abbrev seven : Bytes
seven = 112 ∷ 7 ∷ 0 ∷ 0 ∷ 0 ∷ 0 ∷ 0 ∷ 0 ∷ 0 ∷ 104 ∷ []

seven_byte : byte_at seven 0 ≡ ok 112
unfolding byte_at
seven_byte = refl

seven_pushed :
    (m' : Machine) × (op_at (opcodes no_compiler (interpret 0 no_compiler)) 112 seven 0 1 still
      ≡ ok (9, m'))
unfolding opcodes op_pushint little_endian byte_at push_stack write_cell still
seven_pushed = (_, refl)

list_opcode-follows_example : Lists seven 0 9
list_opcode-follows_example =
    list_opcode-follows no_compiler (interpret 0 no_compiler) seven 0 0 112 9 still seven_pushed.0
      is_pushint seven_byte seven_pushed.1

add_listed : list_opcodes 3 (2 ∷ 0 ∷ 97 ∷ 104 ∷ []) 2 ≡ ok (add ∷ [])
unfolding list_opcodes list_opcode byte_at
add_listed = refl
