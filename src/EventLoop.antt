-- ===== src/EventLoop.antt =====
-- `input_processor` of src/network.c, which the event loop calls once per round.
use sin.Interpret.Machine.{Machine, Interpreter, with_stack}
use sin.Items.Walk.{find_item}
use sin.Network.{Line, is_open, flush_output}
use sin.Outcome.{Outcome, ok, ◌>>=◌}
use sin.Prelude.{ℕ, Option, none, some, List, [], ◌∷◌, if◌then◌else◌, Bytes}
use sin.Stack.{reset_stack}
use sin.Vm.{Vm}

-- What is sent to each line that is connected; the other lines are passed over.
unfoldable pub flush_lines : List Line → List Bytes × List Line
unfolding flush_output
flush_lines [] = ([], [])
flush_lines (line ∷ lines) =
    let (sent, rest) = flush_lines lines in
    if is_open line.status
    then ((flush_output line).0 ∷ sent, (flush_output line).1 ∷ rest)
    else ([] ∷ sent, line ∷ rest)

abbrev pub process_found :
    Interpreter → Machine → Option ℕ → Outcome (Option (List Bytes × Machine))
process_found interpret m none = ok none
process_found interpret m (some input) = do
  (value, m1) ← interpret input m
  (stack, freed) ← reset_stack m1.vm.stack
  let (sent, lines) = flush_lines m1.host.lines
  ok (some (sent, record (with_stack m1 stack) { host = record (m1.host) { lines = lines } }))

-- The input item runs in a virtual machine of its own; without it the process exits, here `none`.
unfoldable pub input_processor :
    Interpreter → Vm → Bytes → Machine → Outcome (Option (List Bytes × Machine))
unfolding flush_lines
input_processor interpret input_vm input m = do
  let m1 = record m { vm = input_vm }
  found ← find_item m1.store m1.root input
  process_found interpret m1 found
