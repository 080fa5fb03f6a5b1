-- ===== src/Tests/TaskRuns.antt =====
-- Runs of src/task.c.
use sin.Outcome.{Returns, undefined}
use sin.Prelude.{ℕ, ◌≡◌, refl, none, [], ◌∷◌, arith, codes, ◌==◌, if◌then◌else◌}
use sin.Task.Finalised.{finalise_tasks-undefined}
use sin.Task.Ids.{
  IsValid, IsMade, count_task, count_id, init_tasks-IsValid, make_task-IsMade, destroy_task-IsValid,
}
use sin.Task.{
  Task, Tasks, init_tasks, make_task, destroy_task, find_task_by_id, find_in, finalise_tasks,
}
use sin.Vm.{make_vm}

make_task-IsMade_example :
    Returns (make_task init_tasks (codes "clock") 50) (λ made. IsMade init_tasks made.0 made.1)
unfolding init_tasks
make_task-IsMade_example =
    make_task-IsMade init_tasks (codes "clock") 50 init_tasks-IsValid (omega arith) (omega arith)

abbrev pub clock : Task
unfolding make_vm
clock = record { id = 1; interval = 50; vm = make_vm; itemname = codes "clock" }

abbrev pub one_task : Tasks
unfolding clock
one_task = record {
  next_taskid = 3;
  capacity_of_id_stack = 256;
  id_stack = 2 ∷ [];
  task_list = clock ∷ [];
}

one_task-IsValid : IsValid one_task
unfolding count_task count_id one_task clock
one_task-IsValid = record {
  small = omega arith;
  positive = omega arith;
  roomy = omega arith;
  wide = omega arith;
  once = λ k. ground arith;
}

destroy_task-IsValid_example :
    IsValid (destroy_task one_task clock)
    × ((k : ℕ)
        → find_task_by_id (destroy_task one_task clock) k
          ≡ (if 1 == k then none else find_task_by_id one_task k))
unfolding one_task clock find_task_by_id find_in
destroy_task-IsValid_example = destroy_task-IsValid one_task 1 clock one_task-IsValid refl

finalise_tasks-undefined_example : finalise_tasks one_task ≡ undefined
unfolding one_task clock count_id count_task
finalise_tasks-undefined_example =
    finalise_tasks-undefined one_task 1 2 one_task-IsValid (omega arith) (omega arith) (omega arith)
