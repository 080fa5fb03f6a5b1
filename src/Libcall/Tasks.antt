-- ===== src/Libcall/Tasks.antt =====
-- The calls of the library `task` in src/libcall.c, and the callback of a timer.
pub mod Killed
use sin.Error.{err_runtime_invalidargs, err_runtime_nosuchitem}
use sin.Interpret.Host.{Host, called, uv_timer_start, uv_close_timer}
use sin.Interpret.Machine.{Machine, Interpreter, with_stack, pop_value, push_value}
use sin.Items.ErrorItem.{set_error_item}
use sin.Items.Walk.{find_item}
use sin.Items.{ItemType, value_item, code_item, load}
use sin.Outcome.{Outcome, ok, ◌>>=◌}
use sin.Prelude.{
  ℕ, Bool, true, false, not, Option, none, some, List, [], ◌∷◌, ◌==◌, ◌&&◌, if◌then◌else◌, Bytes,
}
use sin.Stack.{reset_stack}
use sin.Task.{Task, Tasks, make_task, find_task_by_id}
use sin.Value.{
  Value, int_value, payload_i, payload_s, is_int, is_str, value_nil, value_true, value_false,
}
use sin.Vm.{Vm}
use sin.Word.{mul64}

-- `set_error_item` on the items of `config.itemroot`.
unfoldable pub error_item : ℕ → Machine → Outcome Machine
error_item errnum m = do
  store ← set_error_item m.store m.root errnum
  ok (record m { store = store })

-- The end of a call whose arguments do not fit.
unfoldable pub invalid_args : ℕ → Machine → Outcome (ℕ × Machine)
unfolding error_item
invalid_args nextop m = do
  m1 ← error_item err_runtime_invalidargs m
  m2 ← push_value m1 value_nil
  ok (nextop, m2)

-- The intervals are in tenths of a second, and the timer counts milliseconds.
unfoldable pub start_task : ℕ → Machine → Bytes → ℕ → ℕ → Outcome (ℕ × Machine)
start_task nextop m itemname startin repeatin = do
  let startin_ms = mul64 startin 100
  let repeatin_ms = mul64 repeatin 100
  (newtask, tasks) ← make_task m.host.tasks itemname repeatin_ms
  let host =
      called (record (m.host) { tasks = tasks }) (uv_timer_start newtask.id startin_ms repeatin_ms)
  m1 ← push_value (record m { host = host }) (int_value newtask.id)
  ok (nextop, m1)

abbrev pub new_task_of : ℕ → Machine → Bytes → ℕ → ℕ → Option ℕ → Outcome (ℕ × Machine)
new_task_of nextop m itemname startin repeatin none = do
  m1 ← push_value m value_nil
  m2 ← error_item err_runtime_nosuchitem m1
  ok (nextop, m2)
new_task_of nextop m itemname startin repeatin (some taskitem) =
    start_task nextop m itemname startin repeatin

unfoldable pub lc_task_newgametask : ℕ → Machine → Outcome (ℕ × Machine)
unfolding error_item invalid_args start_task
lc_task_newgametask nextop m = do
  (repeatin, m1) ← pop_value m
  (startin, m2) ← pop_value m1
  (itemname, m3) ← pop_value m2
  if is_int repeatin.type && is_int startin.type && is_str itemname.type
      then (do
        repeats ← payload_i repeatin.payload
        starts ← payload_i startin.payload
        name ← payload_s itemname.payload
        taskitem ← find_item m3.store m3.root name
        new_task_of nextop m3 name starts repeats taskitem)
      else invalid_args nextop m3

-- What libuv does with a handle that is closed already is its own affair: the call is recorded.
abbrev pub kill_found : ℕ → Machine → Option Task → Outcome (ℕ × Machine)
kill_found nextop m none = do m1 ← push_value m value_false; ok (nextop, m1)
kill_found nextop m (some task) = do
  m1 ← push_value (record m { host = called m.host (uv_close_timer task.id) }) value_true
  ok (nextop, m1)

unfoldable pub lc_task_killtask : ℕ → Machine → Outcome (ℕ × Machine)
unfolding invalid_args
lc_task_killtask nextop m = do
  (taskid, m1) ← pop_value m
  if is_int taskid.type
      then (do
        id ← payload_i taskid.payload
        kill_found nextop m1 (find_task_by_id m1.host.tasks id))
      else invalid_args nextop m1

-- The virtual machine of a task lives on in the list of tasks.
unfoldable pub keep_vm : List Task → ℕ → Vm → List Task
keep_vm [] id vm = []
keep_vm (t ∷ ts) id vm = if t.id == id then record t { vm = vm } ∷ ts else t ∷ keep_vm ts id vm

unfoldable pub run_task : Interpreter → Task → ℕ → Machine → Outcome Machine
run_task interpret task i m = do
  (ret, m1) ← interpret i m
  (stack, freed) ← reset_stack m1.vm.stack
  let m2 = with_stack m1 stack
  let tasks = record (m2.host.tasks) { task_list = keep_vm m2.host.tasks.task_list task.id m2.vm }
  ok (record m2 { host = record (m2.host) { tasks = tasks } })

abbrev pub run_by : ItemType → Interpreter → Task → ℕ → Machine → Outcome Machine
run_by value_item interpret task i m = ok m
run_by code_item interpret task i m = run_task interpret task i m

abbrev pub execute_found : Interpreter → Task → Machine → Option ℕ → Outcome Machine
execute_found interpret task m none = ok m
execute_found interpret task m (some i) = do
  item ← load m.store i
  run_by item.type interpret task i m

-- A timer that is due runs its task in the task's own virtual machine.
unfoldable pub execute_task_cb : Interpreter → Task → Machine → Outcome Machine
unfolding run_task
execute_task_cb interpret task m = do
  let m1 = record m { vm = task.vm }
  found ← find_item m1.store m1.root task.itemname
  execute_found interpret task m1 found
