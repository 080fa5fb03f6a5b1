-- ===== src/Tests/MachineRuns.antt =====
-- Runs of the opcodes of src/interpret.c on items.
use sin.Interpret.Code.{byte_at, little_endian}
use sin.Interpret.Locals.Frame.{at_cell}
use sin.Interpret.Loop.Gets.{getlocal-Runs}
use sin.Interpret.Machine.Fetch.{Runs, IsBack, op_fetchitem-IsBack}
use sin.Interpret.Machine.{Machine, with_stack, params_of, op_fetchitem}
use sin.Interpret.Control.{op_nop}
use sin.Error.{err_comp_syntax}
use sin.Interpret.Machine.AssignCode.{Compiler, failed}
use sin.Interpret.Host.{Host}
use sin.Task.{init_tasks}
use sin.Network.{init_networking}
use sin.Interpret.Loop.Ends.{interpret-steals}
use sin.Interpret.Loop.{opcodes, run, interpret}
use sin.Interpret.Machine.Assemble.Layers.{coded, joined, op_assembleitem-joined}
use sin.Interpret.Machine.Assemble.{op_assembleitem}
use sin.Hash.{hash_key}
use sin.HashTable.{find_entry, search_hashtable, hash_index}
use sin.Interpret.Loop.Pushes.{interpret-Runs}
use sin.Items.Walk.{find_item, find_layers, child_of}
use sin.Items.{Item, Store, load}
use sin.Items.Names.{split_name, copy_layer}
use sin.Outcome.{ok, Returns}
use sin.Stack.Contents.{Holds}
use sin.Stack.{Stack}
use sin.Prelude.{
  true, c_string, ◌≡◌, some, str_eq, ◌==◌, if◌then◌else◌, ◌++◌, refl, List, [], ◌∷◌, Bytes, codes,
  arith,
}
use sin.Tests.ItemRuns.{small_store, b_item}
use sin.Tests.Stacks.{at_bottom, stack_of, stack_of-Holds}
use sin.Value.{value_nil, Value, int_value, str_value}
use sin.Vm.{make_callstack}

-- Two lines, no tasks.
abbrev pub quiet_host : Host
unfolding init_tasks init_networking
quiet_host = record {
  tasks = init_tasks;
  lines = init_networking 2;
  lastconn = 0;
  srcroot = codes "src";
  inputline = codes "input.line";
  inputtext = codes "input.text";
  safe_shutdown = true;
  calls = [];
}

abbrev pub machine_of : List Value → Machine
unfolding make_callstack
machine_of xs = record {
  vm = record { stack = stack_of at_bottom xs; callstack = make_callstack };
  store = small_store;
  root = 0;
  host = quiet_host;
}

abbrev name_b : Value
name_b = str_value (codes "b")

-- A compiler that refuses everything.
abbrev pub no_compiler : Compiler
no_compiler source params = failed err_comp_syntax

-- `b` pushes the int 7, and is called with two arguments above one value of the caller.
abbrev seven_code : Bytes
seven_code = 0 ∷ 0 ∷ 112 ∷ 7 ∷ 0 ∷ 0 ∷ 0 ∷ 0 ∷ 0 ∷ 0 ∷ 0 ∷ 104 ∷ []

abbrev seven_item : Item
seven_item = record b_item { bytecode = some seven_code; bytecode_len = 12 }

interpret-Runs_example : Runs (interpret 4 no_compiler) 1 seven_item 0 1 (λ args. int_value 7)
unfolding byte_at little_endian
interpret-Runs_example =
    interpret-Runs 2 no_compiler 1 0 7 seven_item seven_code refl refl refl refl refl refl

-- Code of two parameters that gives back the second one.
abbrev second_code : Bytes
second_code = 2 ∷ 2 ∷ 101 ∷ 1 ∷ 104 ∷ []

abbrev second_item : Item
second_item = record b_item { bytecode = some second_code; bytecode_len = 5 }

abbrev second_store : Store
second_store = record small_store {
  items = λ i. if 1 == i then some second_item else small_store.items i;
}

abbrev call_values : List Value
call_values = name_b ∷ int_value 1 ∷ int_value 2 ∷ int_value 3 ∷ []

abbrev calling_machine : Machine
unfolding machine_of
calling_machine = record (machine_of call_values) { store = second_store }

abbrev one_argument : Bytes
one_argument = 1 ∷ 0 ∷ []

second_found : find_item second_store 0 (codes "b") ≡ ok (some 1)
unfolding find_item find_layers split_name child_of load search_hashtable copy_layer hash_index
    find_entry str_eq hash_key
second_found = refl

-- The call has one argument, and the second parameter, which is given back, is nil.
op_fetchitem-IsBack_example :
    Returns
      (op_fetchitem (interpret 4 no_compiler) one_argument 5 0 calling_machine)
      (IsBack 2 0 at_bottom (value_nil ∷ int_value 2 ∷ int_value 3 ∷ []))
unfolding calling_machine machine_of little_endian byte_at params_of make_callstack
op_fetchitem-IsBack_example =
    op_fetchitem-IsBack (interpret 4 no_compiler) 1 2 5 2 0 (λ args. at_cell args 1 (int_value 0))
      second_item 768
      (getlocal-Runs 2 no_compiler 1 2 1 second_item second_code refl refl refl refl refl refl
        (omega arith))
      refl (omega arith) one_argument (codes "b") 0 calling_machine (int_value 1 ∷ [])
      (int_value 2 ∷ int_value 3 ∷ []) refl refl
      (stack_of-Holds at_bottom call_values (omega arith) refl)
      (record { limit = refl; top = refl }) (omega arith) second_found refl refl

-- The code of `a.bc` behind one byte, and the end of a run behind it.
op_assembleitem-joined_example :
    (s : Stack) × (op_assembleitem
        ((0 ∷ []) ++ (coded (codes "a" ∷ codes "bc" ∷ []) ++ (104 ∷ [])))
        1
        (machine_of (int_value 3 ∷ []))
      ≡ ok (9, with_stack (machine_of (int_value 3 ∷ [])) s))
    × Holds at_bottom (str_value (joined [] (codes "a" ∷ codes "bc" ∷ [])) ∷ int_value 3 ∷ []) s
unfolding machine_of c_string
op_assembleitem-joined_example =
    op_assembleitem-joined (0 ∷ []) (104 ∷ []) (codes "a") (codes "bc" ∷ [])
      (machine_of (int_value 3 ∷ [])) (int_value 3 ∷ [])
      (omega arith, refl, (omega arith, refl, tt))
      (stack_of-Holds at_bottom (int_value 3 ∷ []) (omega arith) refl) (omega arith)

-- `b` has neither parameters nor a result, and the caller has the int 3 on its stack.
interpret-steals_example :
    (m' : Machine) × (interpret 5 no_compiler 1 (machine_of (int_value 3 ∷ []))
      ≡ ok (int_value 3, m'))
    × Holds at_bottom [] m'.vm.stack
unfolding machine_of
interpret-steals_example =
    interpret-steals 4 no_compiler 1 0 (machine_of (int_value 3 ∷ [])) b_item [] (int_value 3) []
      refl refl (stack_of-Holds at_bottom (int_value 3 ∷ []) (omega arith) refl) (omega arith)

two_nops :
    run 3 (opcodes no_compiler (interpret 0 no_compiler)) (0 ∷ 0 ∷ 104 ∷ []) 1 0 (machine_of [])
    ≡ ok (machine_of [])
unfolding run opcodes byte_at op_nop machine_of
two_nops = refl
