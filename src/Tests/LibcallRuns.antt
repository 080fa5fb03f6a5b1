-- ===== src/Tests/LibcallRuns.antt =====
-- Runs of the library calls (src/libcall.c), of the source that is put together again (src/interpret.c)
-- and of the callbacks of src/network.c.
use sin.Interpret.Machine.AssignCode.Source.{source_text-lt-source_room}
use sin.Interpret.Machine.AssignCode.{source_text, source_room}
use sin.Interpret.Machine.{Machine}
use sin.Libcall.Net.Turns.{conn_after, conn_after-served}
use sin.Libcall.Table.{libcalls, libcall_lookup, Entered, libcall_func-libcall_lookup}
use sin.Libcall.Tasks.Killed.{Killed, lc_task_killtask-Killed}
use sin.Libcall.Tasks.{lc_task_killtask}
use sin.Network.Events.Reached.{Reached, started, stepped, connects, hears, reached-split_line}
use sin.Network.Events.{ev_data, telnet_event_handler}
use sin.Network.{
  Line, idle, data_ready, connecting_line, empty_line, newline, memchr, split_line, append_input,
  append_buffer, grow,
}
use sin.Outcome.{Returns}
use sin.Prelude.{
  c_string, ℕ, suc, ◌+◌, ◌≤◌, ◌<◌, ◌≡◌, refl, some, List, [], ◌∷◌, ◌++◌, length, Bytes, codes,
  str_eq, false, arith,
}
use sin.Task.{Task, Tasks, find_task_by_id, find_in}
use sin.Tests.ItemRuns.{small_store}
use sin.Tests.MachineRuns.{quiet_host}
use sin.Tests.Stacks.{at_bottom, stack_of, stack_of-Holds}
use sin.Value.{int_value}
use sin.Vm.{make_callstack, make_vm}

abbrev net_write_found : libcall_lookup (codes "net") (codes "write") ≡ some (3, 1, 2)
unfolding libcall_lookup str_eq
net_write_found = refl

libcall_func-libcall_lookup_example : Entered libcalls (codes "net") (codes "write") 3 1 2
libcall_func-libcall_lookup_example =
    libcall_func-libcall_lookup (codes "net") (codes "write") 3 1 2 net_write_found

source_text-lt-source_room_example :
    length (source_text (codes "a" ∷ codes "b" ∷ []) (codes "a + b"))
    < source_room (codes "a" ∷ codes "b" ∷ []) (codes "a + b")
source_text-lt-source_room_example =
    source_text-lt-source_room (codes "a" ∷ codes "b" ∷ []) (codes "a + b")

-- The first of two lines has text, the other none.
abbrev text_line : Line
text_line = record (empty_line 0) {
  line_handle = 11;
  status = data_ready;
  inbuf = record { bytes = codes "look" ++ (10 ∷ codes "s"); size = 16384 };
}

abbrev two_lines : List Line
two_lines = text_line ∷ record (empty_line 1) { line_handle = 12; status = idle } ∷ []

conn_after-served_example : (k : ℕ) × (k ≤ 2 + 1) × (conn_after (λ _. two_lines) 0 (suc k) ≡ 0)
conn_after-served_example =
    conn_after-served (λ _. two_lines) 2 0 0 (λ k. refl) (λ k. refl) (omega arith) (omega arith)
      (omega arith)

abbrev tick : Task
unfolding make_vm
tick = record { id = 1; interval = 50; vm = make_vm; itemname = codes "tick" }

abbrev ticking : Tasks
unfolding tick
ticking = record {
  next_taskid = 2;
  capacity_of_id_stack = 256;
  id_stack = [];
  task_list = tick ∷ [];
}

abbrev task_machine : Machine
unfolding make_callstack ticking
task_machine = record {
  vm = record { stack = stack_of at_bottom (int_value 1 ∷ []); callstack = make_callstack };
  store = small_store;
  root = 0;
  host = record quiet_host { tasks = ticking };
}

lc_task_killtask-Killed_example :
    Returns
      (lc_task_killtask 5 task_machine)
      (λ out. (out.0 ≡ 5) × Killed at_bottom task_machine (some tick) [] out.1)
unfolding task_machine ticking tick find_task_by_id find_in
lc_task_killtask-Killed_example =
    lc_task_killtask-Killed task_machine 1 [] 5 (some tick)
      (stack_of-Holds at_bottom (int_value 1 ∷ []) (omega arith) refl) refl

abbrev heard_line : Line
heard_line = record (connecting_line (empty_line 0) 11) {
  status = data_ready;
  inbuf = record { bytes = codes "look" ++ (10 ∷ []); size = 16384 };
}

heard : Reached 0 (codes "look" ++ (10 ∷ [])) heard_line
unfolding telnet_event_handler append_input append_buffer grow memchr
heard =
    stepped (stepped started (connects 11 refl))
      (hears (ev_data (codes "look" ++ (10 ∷ []))) heard_line false refl)

reached-split_line_example :
    (text : Bytes) × (after : Bytes) × (split_line (c_string heard_line.inbuf.bytes)
      ≡ some (text, after))
    × (heard_line.inbuf.bytes ≡ text ++ (newline ∷ after))
reached-split_line_example =
    reached-split_line heard
      (
        (λ e. omega arith),
        ((λ e. omega arith), ((λ e. omega arith), ((λ e. omega arith), ((λ e. omega arith), tt)))),
      )
      refl
