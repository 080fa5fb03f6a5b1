-- ===== src/Task/Ids.antt =====
-- The ids of src/task.c: every id below the next one is either that of one task or retired.
use native.Mathlib.Decide.{ℕ_discrete}
use sin.Outcome.{Returns}
use sin.Prelude.{
  ℕ, ◌+◌, ◌^◌, ◌≤◌, ◌<◌, ◌≡◌, ◌≢◌, refl, Bool, none, some, List, [], ◌∷◌, arith, length, ltb, leb,
  ◌==◌, if◌then◌else◌, Bytes, bit, ◌&&◌,
}
use sin.Items.Names.{max_item_name}
use sin.Task.{
  Task, Tasks, init_tasks, file_task, take_id, new_task_id, retire_task_id, make_task, find_in,
  find_task_by_id, unlink, destroy_task,
}
use sin.Vm.{make_vm}

unfoldable pub count_id : ℕ → List ℕ → ℕ
count_id k [] = 0
count_id k (x ∷ xs) = bit (x == k) + count_id k xs

unfoldable pub count_task : ℕ → List Task → ℕ
count_task k [] = 0
count_task k (t ∷ ts) = bit (t.id == k) + count_task k ts

-- `n` is an id that has been handed out.
abbrev is_used : ℕ → ℕ → Bool
is_used next k = leb 1 k && ltb k next

pub record IsValid (ts : Tasks) : Type 0 where
  pub small : ts.next_taskid < 2 ^ 64
  pub positive : 1 ≤ ts.next_taskid
  pub roomy : length ts.id_stack ≤ ts.capacity_of_id_stack
  pub wide : 1 ≤ ts.capacity_of_id_stack
  pub once :
      (k : ℕ) → count_task k ts.task_list + count_id k ts.id_stack ≡ bit (is_used ts.next_taskid k)

pub init_tasks-IsValid : IsValid init_tasks
unfolding init_tasks count_task count_id
init_tasks-IsValid = record {
  small = omega arith;
  positive = omega arith;
  roomy = omega arith;
  wide = omega arith;
  once = λ k. ground arith;
}

find-eq-none : (ts : List Task) (k : ℕ) → count_task k ts ≡ 0 → find_in ts k ≡ none
unfolding count_task find_in
find-eq-none [] k h = refl
find-eq-none (t ∷ ts) k h = ground (arith, find-eq-none ts k)

count-pos_of_find :
    (ts : List Task) (k : ℕ) (task : Task)
    → find_in ts k ≡ some task
    → (1 ≤ count_task k ts) × (task.id ≡ k)
unfolding count_task find_in
count-pos_of_find [] k task h = cc
count-pos_of_find (t ∷ ts) k task h = ground (arith, count-pos_of_find ts k task)

count-unlink :
    (ts : List Task) (id k : ℕ)
    → 1 ≤ count_task id ts
    → count_task k (unlink ts id) + bit (id == k) ≡ count_task k ts
unfolding count_task unlink
count-unlink [] id k h = absurd (omega arith)
count-unlink (t ∷ ts) id k h = ground (arith, count-unlink ts id k)

find-unlink : (ts : List Task) (id k : ℕ) → id ≢ k → find_in (unlink ts id) k ≡ find_in ts k
unfolding unlink find_in
find-unlink [] id k h = refl
find-unlink (t ∷ ts) id k h = ground (arith, find-unlink ts id k)

-- What `make_task` gives: a task whose id no other task has, filed under that id.
pub record IsMade (ts : Tasks) (task : Task) (tasks : Tasks) : Type 0 where
  pub valid : IsValid tasks
  pub fresh : find_task_by_id ts task.id ≡ none
  pub reads :
      (k : ℕ) → find_task_by_id tasks k ≡ (if task.id == k then some task else find_task_by_id ts k)

id_unused : (ts : Tasks) (k : ℕ) → count_task k ts.task_list ≡ 0 → find_task_by_id ts k ≡ none
unfolding find_task_by_id
id_unused ts k h = find-eq-none ts.task_list k h

file_task-IsMade :
    (ts : Tasks) (itemname : Bytes) (interval : ℕ)
    → IsValid ts
    → ts.next_taskid + 1 < 2 ^ 64
    → (l : List ℕ) → ts.id_stack ≡ l
    → IsMade ts
        (file_task itemname interval (take_id l ts)).0
        (file_task itemname interval (take_id l ts)).1
unfolding find_task_by_id find_in count_task count_id file_task make_vm
file_task-IsMade ts itemname interval v lt [] e = record {
  valid = record {
    small = let h = v.small in ground arith;
    positive = let h = v.positive in ground arith;
    roomy = v.roomy;
    wide = v.wide;
    once = λ k. (let h = v.once k in let p = v.positive in ground arith);
  };
  fresh = id_unused ts ts.next_taskid (let o = v.once ts.next_taskid in ground arith);
  reads = λ k. refl;
}
file_task-IsMade ts itemname interval v lt (id ∷ rest) e = record {
  valid = record {
    small = v.small;
    positive = v.positive;
    roomy = let h = v.roomy in ground arith;
    wide = v.wide;
    once = λ k. (let h = v.once k in ground arith);
  };
  fresh = id_unused ts id (let o = v.once id in ground arith);
  reads = λ k. refl;
}

-- A new task has an id that no task has, and is found under it; the ids stay in order.
pub make_task-IsMade :
    (ts : Tasks) (itemname : Bytes) (interval : ℕ)
    → IsValid ts
    → ts.next_taskid + 1 < 2 ^ 64
    → length itemname < max_item_name
    → Returns (make_task ts itemname interval) (λ made. IsMade ts made.0 made.1)
unfolding make_task new_task_id
make_task-IsMade ts itemname interval v lt short = (
  file_task itemname interval (take_id ts.id_stack ts),
  ground arith,
  file_task-IsMade ts itemname interval v lt ts.id_stack refl,
)

-- `destroy_task` of a task that was found keeps the ids in order, and its id, and no other, is not
-- found any more.
pub destroy_task-IsValid :
    (ts : Tasks) (id : ℕ) (task : Task)
    → IsValid ts
    → find_task_by_id ts id ≡ some task
    → IsValid (destroy_task ts task)
      × ((k : ℕ)
          → find_task_by_id (destroy_task ts task) k
            ≡ (if id == k then none else find_task_by_id ts k))
unfolding destroy_task retire_task_id find_task_by_id count_id
destroy_task-IsValid ts id task v found =
    let (pos, same) = count-pos_of_find ts.task_list id task found in
    let listed : (destroy_task ts task).task_list ≡ unlink ts.task_list id = ground (arith, same) in
    let used = v.once id in
    (
      record {
        small = let h = v.small in ground arith;
        positive = let h = v.once 0 in let h' = v.positive in ground arith;
        roomy = let h = v.roomy in let h' = v.wide in ground arith;
        wide = let h = v.wide in ground arith;
        once =
            λ k. (let h = v.once k in let h' = count-unlink ts.task_list id k pos in ground arith);
      },
      λ k. elim (ℕ_discrete id k) [
        | yes e ↦
            (let gone =
                id_unused (destroy_task ts task) id
                  (let h' = count-unlink ts.task_list id id pos in ground arith) in
              ground arith)
        | no ne ↦ (let h = find-unlink ts.task_list id k ne in ground arith)
      ],
    )
