-- ===== src/Libcall/Tasks/Killed.antt =====
-- What `lc_task_killtask` of src/libcall.c leaves behind.
use sin.Interpret.Host.{HostCall, called, uv_close_timer}
use sin.Interpret.Machine.Assign.{pop_value-Holds, push_value-Holds}
use sin.Interpret.Machine.{Machine, with_stack}
use sin.Libcall.Tasks.{lc_task_killtask}
use sin.Outcome.{Returns}
use sin.Prelude.{ℕ, ◌<◌, ◌≡◌, refl, Option, none, some, List, ◌∷◌, length, arith}
use sin.Stack.Contents.{Registers, Holds}
use sin.Stack.{stack_size}
use sin.Task.{Task, find_task_by_id}
use sin.Value.{Value, int_value, value_true, value_false}

-- The answer, and the calls of libuv.
abbrev pub kill_answer : Option Task → Value
kill_answer none = value_false
kill_answer (some task) = value_true

abbrev pub kill_calls : Option Task → List HostCall → List HostCall
kill_calls none calls = calls
kill_calls (some task) calls = uv_close_timer task.id ∷ calls

pub record Killed (r : Registers) (m : Machine) (o : Option Task) (xs : List Value) (m' : Machine)
    : Type 0 where
  pub stack : Holds r (kill_answer o ∷ xs) m'.vm.stack
  pub tasks : m'.host.tasks ≡ m.host.tasks
  pub calls : m'.host.calls ≡ kill_calls o m.host.calls
  pub store : m'.store ≡ m.store

-- With a task id on the top, `lc_task_killtask` puts the truth in its place, whether there is a task
-- of that id; it closes the timer of that task, but the task stays in the list under its id.
pub lc_task_killtask-Killed :
    {r : Registers} (m : Machine) (id : ℕ) (xs : List Value) (nextop : ℕ) (o : Option Task)
    → Holds r (int_value id ∷ xs) m.vm.stack
    → find_task_by_id m.host.tasks id ≡ o
    → Returns (lc_task_killtask nextop m) (λ out. (out.0 ≡ nextop) × Killed r m o xs out.1)
unfolding lc_task_killtask
lc_task_killtask-Killed m id xs nextop none h found =
    let (s, e, h') = pop_value-Holds m (int_value id) xs h in
    let room : length xs < stack_size = (let f = h.fits in omega arith) in
    let (s2, e2, h2) = push_value-Holds (with_stack m s) value_false xs h' room in
    (
      (nextop, with_stack m s2),
      rw (e, found, e2) refl,
      (refl, record { stack = h2; tasks = refl; calls = refl; store = refl }),
    )
lc_task_killtask-Killed m id xs nextop (some task) h found =
    let (s, e, h') = pop_value-Holds m (int_value id) xs h in
    let room : length xs < stack_size = (let f = h.fits in omega arith) in
    let m1 = with_stack m s in
    let m2 = record m1 { host = called m1.host (uv_close_timer task.id) } in
    let (s2, e2, h2) = push_value-Holds m2 value_true xs h' room in
    (
      (nextop, with_stack m2 s2),
      rw (e, found, e2) refl,
      (refl, record { stack = h2; tasks = refl; calls = refl; store = refl }),
    )
