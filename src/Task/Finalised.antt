-- ===== src/Task/Finalised.antt =====
-- The end of the tasks: `finalise_tasks` of src/task.c, which gives ids back to a stack that it has
-- freed.
use sin.Outcome.{ok, undefined}
use sin.Prelude.{
  ℕ, ◌+◌, ◌-◌, ◌%◌, ◌^◌, ◌≤◌, ◌<◌, ◌≡◌, refl, true, false, zero, suc, List, [], ◌∷◌, ◌==◌, arith,
  Bool-cases, inl, inr,
}
use sin.Task.Ids.{count_task, count_id, IsValid}
use sin.Task.{Task, Tasks, retire_freed, finalise_nodes, finalise_tasks}

-- The counter gives the last id that it handed out.
last_id : (next n : ℕ) → next ≡ n + 1 → n + 1 < 2 ^ 64 → (next + 2 ^ 64 - 1) % 2 ^ 64 ≡ n
last_id next n e h = omega arith

retire_last :
    (ts : Tasks) (id n : ℕ)
    → ts.next_taskid ≡ n + 1
    → n + 1 < 2 ^ 64
    → (id == n) ≡ true
    → retire_freed ts id ≡ ok (record ts { next_taskid = n })
unfolding retire_freed
retire_last ts id n e h q = rw (last_id ts.next_taskid n e h, q) refl

retire_other :
    (ts : Tasks) (id n : ℕ)
    → ts.next_taskid ≡ n + 1
    → n + 1 < 2 ^ 64
    → (id == n) ≡ false
    → retire_freed ts id ≡ undefined
unfolding retire_freed
retire_other ts id n e h q = rw (last_id ts.next_taskid n e h, q) refl

-- The id `k` is none of a task, and a task with a smaller id is left.
finalise_nodes-stuck :
    (nodes : List Task) (ts : Tasks) (n j k : ℕ)
    → ts.next_taskid ≡ n + 1
    → n + 1 < 2 ^ 64
    → k ≤ n
    → j < k
    → count_task k nodes ≡ 0
    → 1 ≤ count_task j nodes
    → finalise_nodes nodes ts ≡ undefined
unfolding finalise_nodes count_task
finalise_nodes-stuck [] ts n j k e h le lt none_k some_j = absurd (omega arith)
finalise_nodes-stuck (task ∷ rest) ts zero j k e h le lt none_k some_j = absurd (omega arith)
finalise_nodes-stuck (task ∷ rest) ts (suc n) j k e h le lt none_k some_j =
    elim (Bool-cases (task.id == suc n)) [
      | inl q ↦ rw (retire_last (record ts { task_list = rest }) task.id (suc n) e h q) (
          finalise_nodes-stuck rest (record ts { task_list = rest; next_taskid = suc n }) n j k
            (omega arith) (omega arith) (ground arith) lt (ground arith) (ground arith))
      | inr q ↦ rw (retire_other (record ts { task_list = rest }) task.id (suc n) e h q) refl
    ]

-- Where an id has been given back, and a task with a smaller id is there, `finalise_tasks` uses the
-- stack of ids after it has freed it.
pub finalise_tasks-undefined :
    (ts : Tasks) (j k : ℕ)
    → IsValid ts
    → 1 ≤ count_id k ts.id_stack
    → 1 ≤ count_task j ts.task_list
    → j < k
    → finalise_tasks ts ≡ undefined
unfolding finalise_tasks
finalise_tasks-undefined ts j k v retired there lt =
    let h = v.once k in
    let small = v.small in
    finalise_nodes-stuck ts.task_list ts (ts.next_taskid - 1) j k (omega (arith, v.positive))
      (omega arith) (ground arith) lt (ground arith) there
