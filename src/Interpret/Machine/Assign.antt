-- ===== src/Interpret/Machine/Assign.antt =====
-- Assignment to an item and what the program sees of it afterwards (src/interpret.c).
use sin.Interpret.Machine.{Machine, with_stack, push_value, pop_value, op_exists, is_found}
use sin.Items.Insert.{Found}
use sin.Items.Walk.{find_item, measure_tail, free_bytecode}
use sin.Items.{value_item, code_item, Item, Store}
use sin.Outcome.{Outcome, ok, undefined}
use sin.Prelude.{ℕ, ◌<◌, ◌≡◌, refl, true, Option, ◌⊎◌, List, ◌∷◌, length, Bytes, arith}
use sin.Stack.Contents.{Registers, Holds, pop_stack-Holds, push_stack-Holds}
use sin.Stack.{Stack, stack_size}
use sin.Value.{Value, str_value, bool_value}

pub pop_value-Holds :
    {r : Registers} (m : Machine) (x : Value) (xs : List Value)
    → Holds r (x ∷ xs) m.vm.stack
    → (s : Stack) × (pop_value m ≡ ok (x, with_stack m s)) × Holds r xs s
unfolding pop_value
pop_value-Holds m x xs h = let (s, e, h') = pop_stack-Holds x xs h in (s, rw e refl, h')

pub push_value-Holds :
    {r : Registers} (m : Machine) (x : Value) (xs : List Value)
    → Holds r xs m.vm.stack
    → length xs < stack_size
    → (s : Stack) × (push_value m x ≡ ok (with_stack m s)) × Holds r (x ∷ xs) s
unfolding push_value
push_value-Holds m x xs h lt = let (s, e, h') = push_stack-Holds xs x h lt in (s, rw e refl, h')

-- The machine after an assignment: the value and the name are gone, and the item is found.
pub record IsAssigned (r : Registers) (m : Machine) (name : Bytes) (xs : List Value) (i : ℕ)
    (item : Item) (m' : Machine) : Type 0 where
  pub stack : Holds r xs m'.vm.stack
  pub root : m'.root ≡ m.root
  pub found : Found m.store m.root name i item m'.store

-- The result of `op_assignitem`: the item has the value; or it is code that is running, and keeps
-- what it has; or the old value is the empty string or the old code was freed.
pub data Assigned (r : Registers) (m : Machine) (name : Bytes) (v : Value) (xs : List Value)
    (nextop : ℕ) (result : Outcome (ℕ × Machine)) : Type 0 where
  assigned :
      (i : ℕ) (item : Item) (m' : Machine)
      → result ≡ ok (nextop, m')
      → IsAssigned r m name xs i item m'
      → item.value ≡ v
      → Assigned r m name v xs nextop result
  kept :
      (i : ℕ) (item : Item) (m' : Machine)
      → result ≡ ok (nextop, m')
      → IsAssigned r m name xs i item m'
      → (item.type ≡ code_item) × (item.inuse ≡ true)
      → Assigned r m name v xs nextop result
  fault :
      (i : ℕ) (item : Item) (st' : Store)
      → result ≡ undefined
      → Found m.store m.root name i item st'
      → ((item.type ≡ value_item) × (measure_tail item.value ≡ undefined))
        ⊎ ((item.type ≡ code_item) × (free_bytecode item.bytecode_len item.bytecode ≡ undefined))
      → Assigned r m name v xs nextop result

-- `op_exists` replaces a name by whether `find_item` finds it.
pub op_exists-found :
    {r : Registers} (m : Machine) (name : Bytes) (xs : List Value) (nextop : ℕ) (found : Option ℕ)
    → Holds r (str_value name ∷ xs) m.vm.stack
    → find_item m.store m.root name ≡ ok found
    → (s : Stack) × (op_exists nextop m ≡ ok (nextop, with_stack m s))
      × Holds r (bool_value (is_found found) ∷ xs) s
unfolding op_exists
op_exists-found m name xs nextop found h e =
    let (s1, e1, h1) = pop_value-Holds m (str_value name) xs h in
    let (s2, e2, h2) =
      push_value-Holds (with_stack m s1) (bool_value (is_found found)) xs h1
        (let f = h.fits in omega arith) in
    (s2, rw (e1, e, e2) refl, h2)
