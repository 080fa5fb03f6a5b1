-- ===== src/Interpret/Machine.antt =====
-- The opcodes of src/interpret.c that read and write items.
pub mod Assign
pub mod Fetch
pub mod Assemble
pub mod AssignCode
use sin.Interpret.Code.{little_endian, byte_at}
use sin.Interpret.Host.{Host}
use sin.Items.Delete.{delete_item}
use sin.Items.Walk.{find_item, insert_item, find_item_by_index}
use sin.Items.{ItemType, value_item, code_item, Item, Store, load}
use sin.Outcome.{Outcome, ok, undefined, ◌>>=◌, from_option}
use sin.Prelude.{
  ℕ, zero, suc, ◌+◌, ◌-◌, ◌^◌, Bool, true, false, Option, none, some, List, [], ◌∷◌, ltb,
  if◌then◌else◌, Bytes, ◌&&◌,
}
use sin.Stack.{Stack, pop_stack, push_stack, throwaway_stack}
use sin.Value.{
  ValueType, Value, word, str_value, bool_value, value_nil, payload_i, payload_s, is_str, is_int,
}
use sin.Vm.{Frame, Vm, push_callstack, pop_callstack}

-- What the opcodes share: `VM`, the items, `config.itemroot` and the rest of the process.
pub record Machine : Type 0 where
  pub vm : Vm
  pub store : Store
  pub root : ℕ
  pub host : Host

abbrev pub with_stack : Machine → Stack → Machine
with_stack m s = record m { vm = record (m.vm) { stack = s } }

unfoldable pub push_value : Machine → Value → Outcome Machine
push_value m v = do s ← push_stack m.vm.stack v; ok (with_stack m s)

unfoldable pub pop_value : Machine → Outcome (Value × Machine)
pop_value m = do (v, s) ← pop_stack m.vm.stack; ok (v, with_stack m s)

-- The name is freed by its length, which is undefined where it is no string.
unfoldable pub assignitem : Machine → Value → Value → Outcome Machine
assignitem m itemname val =
    if is_str itemname.type
    then (do
      name ← payload_s itemname.payload
      (i, store) ← insert_item m.store m.root name val
      ok (record m { store = store }))
    else (do name ← payload_s itemname.payload; ok m)

unfoldable pub op_assignitem : ℕ → Machine → Outcome (ℕ × Machine)
op_assignitem nextop m = do
  (val, m1) ← pop_value m
  (itemname, m2) ← pop_value m1
  m3 ← assignitem m2 itemname val
  ok (nextop, m3)

-- Of nil the name is NULL.
unfoldable pub op_delete : ℕ → Machine → Outcome (ℕ × Machine)
op_delete nextop m = do
  (val, m1) ← pop_value m
  name ← payload_s val.payload
  store ← delete_item m1.store m1.root name
  ok (nextop, record m1 { store = store })

abbrev pub is_found : Option ℕ → Bool
is_found none = false
is_found (some i) = true

unfoldable pub op_exists : ℕ → Machine → Outcome (ℕ × Machine)
op_exists nextop m = do
  (val, m1) ← pop_value m
  name ← payload_s val.payload
  i ← find_item m1.store m1.root name
  m2 ← push_value m1 (bool_value (is_found i))
  ok (nextop, m2)

-- An index counts from 0; a negative one has its top bit set.
abbrev pub index_of : Value → Outcome (Option ℕ)
index_of v =
    if is_int v.type
    then (do i ← payload_i v.payload; ok (if ltb i (2 ^ 63) then some i else none))
    else ok none

-- The name of a child, or nil.
abbrev pub name_of : Store → Option ℕ → Outcome Value
name_of st none = ok value_nil
name_of st (some child) = do item ← load st child; ok (str_value item.name)

abbrev pub nth_name : Store → Option ℕ → Option ℕ → Outcome Value
nth_name st none index = ok value_nil
nth_name st (some i) none = ok value_nil
nth_name st (some i) (some n) = do child ← find_item_by_index st i n; name_of st child

abbrev pub nth_by : Machine → Value → Option ℕ → Outcome Value
nth_by m itemname none = ok value_nil
nth_by m itemname (some n) = do
  name ← payload_s itemname.payload
  i ← find_item m.store m.root name
  nth_name m.store i (some n)

unfoldable pub op_nthname : ℕ → Machine → Outcome (ℕ × Machine)
op_nthname nextop m = do
  (index, m1) ← pop_value m
  (itemname, m2) ← pop_value m1
  n ← index_of index
  v ← nth_by m2 itemname n
  m3 ← push_value m2 v
  ok (nextop, m3)

unfoldable pub op_rootname : ℕ → Machine → Outcome (ℕ × Machine)
op_rootname nextop m = do
  (index, m1) ← pop_value m
  n ← index_of index
  v ← nth_name m1.store (some m1.root) n
  m2 ← push_value m1 v
  ok (nextop, m2)

-- The loops of `op_fetchitem`, each with its number of rounds.
unfoldable pub throw_away : ℕ → Stack → Outcome Stack
throw_away zero s = ok s
throw_away (suc n) s = do s' ← throwaway_stack s; throw_away n s'

unfoldable pub push_nils : ℕ → Stack → Outcome Stack
push_nils zero s = ok s
push_nils (suc n) s = do s' ← push_stack s value_nil; push_nils n s'

-- `interpret` runs the code of an item and gives its result.
abbrev pub Interpreter : Type 0
Interpreter = ℕ → Machine → Outcome (Value × Machine)

-- `i->bytecode[1]`
unfoldable pub params_of : Item → Outcome ℕ
params_of item = do code ← from_option item.bytecode; byte_at code 1

unfoldable pub call_item : Interpreter → ℕ → ℕ → ℕ → ℕ → Item → Machine → Outcome (ℕ × Machine)
call_item interpret caller nextop arg_count i item m = do
  params ← params_of item
  s1 ← throw_away (arg_count - params) m.vm.stack
  s2 ← push_nils (params - arg_count) s1
  vm ← push_callstack (record (m.vm) { stack = s2 }) caller nextop params
  (value, m1) ← interpret i (record m { vm = vm })
  (frame, vm1) ← pop_callstack m1.vm
  m2 ← push_value (record m1 { vm = vm1 }) value
  ok (frame.nextop, m2)

abbrev pub fetch_by :
    ItemType → Interpreter → ℕ → ℕ → ℕ → ℕ → Item → Machine → Outcome (ℕ × Machine)
fetch_by value_item interpret caller nextop arg_count i item m = do
  m1 ← push_value m item.value
  ok (nextop, m1)
fetch_by code_item interpret caller nextop arg_count i item m =
    call_item interpret caller nextop arg_count i item m

abbrev pub fetch_found : Option ℕ → Interpreter → ℕ → ℕ → ℕ → Machine → Outcome (ℕ × Machine)
fetch_found none interpret caller nextop arg_count m = do
  s ← throw_away arg_count m.vm.stack
  m1 ← push_value (with_stack m s) value_nil
  ok (nextop, m1)
fetch_found (some i) interpret caller nextop arg_count m = do
  item ← load m.store i
  fetch_by item.type interpret caller nextop arg_count i item m

unfoldable pub op_fetchitem : Interpreter → Bytes → ℕ → ℕ → Machine → Outcome (ℕ × Machine)
op_fetchitem interpret code caller nextop m = do
  arg_count ← little_endian 2 code nextop
  (itemname, m1) ← pop_value m
  if is_str itemname.type
      then (do
        name ← payload_s itemname.payload
        found ← find_item m1.store m1.root name
        fetch_found found interpret caller (nextop + 2) arg_count m1)
      else (do m2 ← push_value m1 value_nil; ok (nextop + 2, m2))
