-- ===== src/Task.antt =====
-- src/task.c: the tasks, and the ids that they take and give back.
pub mod Ids
pub mod Finalised
use sin.Items.Names.{max_item_name}
use sin.Outcome.{Outcome, ok, undefined, ◌>>=◌}
use sin.Prelude.{
  ℕ, ◌+◌, ◌-◌, ◌*◌, ◌%◌, ◌^◌, Bool, true, false, Option, none, some, List, [], ◌∷◌, length, ltb,
  ◌==◌, if◌then◌else◌, Bytes,
}
use sin.Vm.{Vm, make_vm}

-- `TASK_t`. The libuv timer is not part of the model.
pub record Task : Type 0 where
  pub id : ℕ
  pub interval : ℕ
  pub vm : Vm
  pub itemname : Bytes

-- The static variables of task.c. `id_stack` has its top first, and `task_list` its head first.
pub record Tasks : Type 0 where
  pub next_taskid : ℕ
  pub capacity_of_id_stack : ℕ
  pub id_stack : List ℕ
  pub task_list : List Task

unfoldable pub init_tasks : Tasks
init_tasks = record { next_taskid = 1; capacity_of_id_stack = 256; id_stack = []; task_list = [] }

-- `top_of_id_stack` is the length of the stack. The counter is a `uint64_t`.
abbrev pub take_id : List ℕ → Tasks → ℕ × Tasks
take_id [] ts = (ts.next_taskid, record ts { next_taskid = (ts.next_taskid + 1) % 2 ^ 64 })
take_id (id ∷ rest) ts = (id, record ts { id_stack = rest })

unfoldable pub new_task_id : Tasks → ℕ × Tasks
new_task_id ts = take_id ts.id_stack ts

unfoldable pub retire_task_id : Tasks → ℕ → Tasks
retire_task_id ts id =
    if id == (ts.next_taskid + 2 ^ 64 - 1) % 2 ^ 64
    then record ts { next_taskid = (ts.next_taskid + 2 ^ 64 - 1) % 2 ^ 64 }
    else record ts {
      capacity_of_id_stack =
          if length ts.id_stack == ts.capacity_of_id_stack
          then ts.capacity_of_id_stack * 2
          else ts.capacity_of_id_stack;
      id_stack = id ∷ ts.id_stack;
    }

-- The task of an id that was taken, at the head of the list.
unfoldable pub file_task : Bytes → ℕ → ℕ × Tasks → Task × Tasks
unfolding make_vm
file_task itemname interval (id, ts) =
    let task : Task = record { id = id; interval = interval; vm = make_vm; itemname = itemname } in
    (task, record ts { task_list = task ∷ ts.task_list })

-- `strcpy` into `itemname` writes past it where the name and its null do not fit.
unfoldable pub make_task : Tasks → Bytes → ℕ → Outcome (Task × Tasks)
make_task ts itemname interval =
    if ltb (length itemname) max_item_name
    then ok (file_task itemname interval (new_task_id ts))
    else undefined

unfoldable pub find_in : List Task → ℕ → Option Task
find_in [] id = none
find_in (t ∷ ts) id = if t.id == id then some t else find_in ts id

unfoldable pub find_task_by_id : Tasks → ℕ → Option Task
find_task_by_id ts id = find_in ts.task_list id

-- The walk of `destroy_task`, which unlinks the node of the task. Two tasks in the list are one
-- exactly when their ids are.
unfoldable pub unlink : List Task → ℕ → List Task
unlink [] id = []
unlink (t ∷ ts) id = if t.id == id then ts else t ∷ unlink ts id

unfoldable pub destroy_task : Tasks → Task → Tasks
destroy_task ts task =
    let ts' = retire_task_id ts task.id in record ts' { task_list = unlink ts'.task_list task.id }

abbrev pub destroy_found : Tasks → Option Task → Tasks
destroy_found ts none = ts
destroy_found ts (some task) = destroy_task ts task

unfoldable pub destroy_task_by_id : Tasks → ℕ → Tasks
destroy_task_by_id ts id = destroy_found ts (find_task_by_id ts id)

-- `retire_task_id` once `id_stack` was freed: to put the id there, or to grow the array, is a use of
-- freed memory.
unfoldable pub retire_freed : Tasks → ℕ → Outcome Tasks
retire_freed ts id =
    if id == (ts.next_taskid + 2 ^ 64 - 1) % 2 ^ 64
    then ok (record ts { next_taskid = (ts.next_taskid + 2 ^ 64 - 1) % 2 ^ 64 })
    else undefined

-- The loop of `finalise_tasks`, over the nodes that are left. The node of a task has left the list
-- before the task is destroyed, so that the walk of `destroy_task` finds nothing to unlink.
unfoldable pub finalise_nodes : List Task → Tasks → Outcome Tasks
finalise_nodes [] ts = ok (record ts { task_list = [] })
finalise_nodes (task ∷ rest) ts = do
  ts1 ← retire_freed (record ts { task_list = rest }) task.id
  finalise_nodes rest ts1

-- `id_stack` is freed first.
unfoldable pub finalise_tasks : Tasks → Outcome Tasks
finalise_tasks ts = finalise_nodes ts.task_list ts
