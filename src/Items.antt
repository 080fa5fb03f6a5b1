-- ===== src/Items.antt =====
-- The items of src/item.c, in a store that gives each pointer a number.
pub mod Names
pub mod Walk
pub mod Valid
pub mod Make
pub mod Paths
pub mod Save
pub mod Put
pub mod Insert
pub mod InsertCode
pub mod File
pub mod Delete
pub mod ErrorItem
pub mod FullName
pub mod SetFound
use sin.HashTable.{HashTable, create_hashtable, insert_hashtable, maybe_resize_hashtable}
use sin.Items.Names.{copy_layer}
use sin.Outcome.{Outcome, ok, undefined, ◌>>=◌, from_option}
use sin.Prelude.{
  ℕ, suc, ◌+◌, ◌%◌, Bool, true, false, Option, none, some, List, [], ◌∷◌, ◌++◌, length, ltb, leb,
  ◌==◌, if◌then◌else◌, Bytes,
}
use sin.Value.{ValueType, int, word, Value, value_zero}

pub data ItemType : Type 0 where
  value_item : ItemType
  code_item : ItemType

-- `ITEM_t`. The bytecode is `none` where the pointer was freed; `ordered_size` is the length of
-- the array.
pub record Item : Type 0 where
  pub type : ItemType
  pub bytecode_len : ℕ
  pub name : Bytes
  pub inuse : Bool
  pub parent : Option ℕ
  pub children : HashTable ℕ
  pub bytecode : Option Bytes
  pub value : Value
  pub ordered_capacity : ℕ
  pub ordered_array : List ℕ

-- The items by their numbers, and the number that the next one gets.
pub record Store : Type 0 where
  pub items : ℕ → Option Item
  pub next : ℕ

-- `*item`
unfoldable pub load : Store → ℕ → Outcome Item
load st i = from_option (st.items i)

abbrev pub save : Store → ℕ → Item → Store
save st i item = record st { items = λ j. if i == j then some item else st.items j }

abbrev pub item_array_init_capacity : ℕ
item_array_init_capacity = 10

-- The capacity is a `uint8_t`.
unfoldable pub resize_ordered_array : Item → Item
resize_ordered_array item =
    if leb item.ordered_capacity (length item.ordered_array)
    then record item { ordered_capacity = (item.ordered_capacity + item_array_init_capacity) % 256 }
    else item

-- `ordered_array[ordered_size++] = child`
unfoldable pub append_ordered : Item → ℕ → Outcome Item
append_ordered item child =
    if ltb (length item.ordered_array) item.ordered_capacity
    then ok (record item { ordered_array = item.ordered_array ++ (child ∷ []) })
    else undefined

-- A fresh item without children. `make_item` of a code item leaves the zeroed value as it is, and
-- that of a value item the zeroed bytecode.
unfoldable pub new_item : Bytes → Option ℕ → Value → Item
unfolding create_hashtable
new_item name parent value = record {
  type = value_item;
  bytecode_len = 0;
  name = name;
  inuse = false;
  parent = parent;
  children = create_hashtable 16;
  bytecode = some [];
  value = value;
  ordered_capacity = item_array_init_capacity;
  ordered_array = [];
}

abbrev pub typed_item : ItemType → Bytes → ℕ → Value → Bytes → Item
typed_item value_item name parent value bytecode = new_item name (some parent) value
typed_item code_item name parent value bytecode = record (new_item name (some parent) value_zero) {
  type = code_item;
  bytecode = some bytecode;
  bytecode_len = length bytecode;
}

-- What `make_item` does to the parent of the new item.
unfoldable pub adopt : Item → Bytes → ℕ → Outcome Item
adopt p name child = do
  entered ← insert_hashtable p.children name child
  children ← maybe_resize_hashtable entered
  append_ordered (resize_ordered_array (record p { children = children })) child

unfoldable pub make_item : Store → Bytes → ℕ → ItemType → Value → Bytes → Outcome (ℕ × Store)
make_item st name parent type value bytecode = do
  copied ← copy_layer name
  let id = st.next
  let st1 = save (record st { next = suc id }) id (typed_item type copied parent value bytecode)
  p ← load st1 parent
  p' ← adopt p name id
  ok (id, save st1 parent p')

-- The parent of the root is NULL.
unfoldable pub make_root_item : Store → Bytes → Outcome (ℕ × Store)
make_root_item st name = do
  copied ← copy_layer name
  ok (st.next, save (record st { next = suc st.next }) st.next (new_item copied none value_zero))
