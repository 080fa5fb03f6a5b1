-- ===== src/Items/Walk.antt =====
-- `find_item`, `insert_item`, `insert_code_item` and `set_item` of src/item.c, which walk along the
-- layers of a name.
use sin.HashTable.{search_hashtable}
use sin.Items.Names.{copy_layer, split_name, is_end}
use sin.Items.{ItemType, value_item, code_item, Item, Store, load, save, make_item}
use sin.Outcome.{Outcome, ok, undefined, ◌>>=◌}
use sin.Prelude.{
  ℕ, zero, suc, Bool, true, false, Option, none, some, List, [], ◌∷◌, length, get_elem?,
  if◌then◌else◌, Bytes,
}
use sin.Value.{int, str, nil, bool, word, text, Value, value_nil}

-- The layer is a child of the item, or not.
unfoldable pub child_of : Store → ℕ → Bytes → Outcome (Option ℕ)
child_of st i layer = do item ← load st i; search_hashtable item.children layer

unfoldable pub find_layers : Store → Option ℕ → List Bytes → Outcome (Option ℕ)
find_layers st current [] = ok current
find_layers st none (l ∷ rest) = ok none
find_layers st (some i) (l ∷ rest) =
    if is_end l rest
    then ok (some i)
    else (do layer ← copy_layer l; child ← child_of st i layer; find_layers st child rest)

unfoldable pub find_item : Store → ℕ → Bytes → Outcome (Option ℕ)
find_item st root item_name = find_layers st (some root) (split_name item_name)

-- A child that is missing is made, with nil as its value.
abbrev pub or_make : Store → ℕ → Bytes → Option ℕ → Outcome (ℕ × Store)
or_make st i layer (some child) = ok (child, st)
or_make st i layer none = make_item st layer i value_item value_nil []

-- What stands at the last layer: `write` gives the pointer that is returned.
abbrev pub Write : Type 0
Write = Store → ℕ → Outcome (Option ℕ × Store)

unfoldable pub insert_layers : Write → Store → ℕ → List Bytes → Outcome (Option ℕ × Store)
insert_layers write st i [] = ok (some i, st)
insert_layers write st i (l ∷ rest) = if is_end l rest then ok (some i, st) else (do
  layer ← copy_layer l
  found ← child_of st i layer
  (child, st1) ← or_make st i layer found
  elim rest [ [] ↦ write st1 child | _ ∷ _ ↦ insert_layers write st1 child rest ])

-- `strlen(value.s + 1)` reads past the end of the empty string.
abbrev pub measure_tail : Value → Outcome Bool
measure_tail v = elim v.type [
  | str ↦ elim v.payload [
    | text s ↦ elim s [ [] ↦ undefined | _ ∷ _ ↦ ok true ]
    | word w ↦ undefined
  ]
  | int ↦ ok false
  | nil ↦ ok false
  | bool ↦ ok false
]

-- `free(bytecode)`, where there is any: undefined on a pointer that was freed before.
abbrev pub free_bytecode : ℕ → Option Bytes → Outcome (Option Bytes)
free_bytecode zero b = ok b
free_bytecode (suc n) none = undefined
free_bytecode (suc n) (some b) = ok none

-- The end of `insert_item`: the item keeps its type. The message of the refusal is left out.
abbrev pub put_by : ItemType → Value → Store → ℕ → Item → Outcome (Option ℕ × Store)
put_by value_item value st i item = do
  freed ← measure_tail item.value
  ok (some i, save st i (record item { value = value }))
put_by code_item value st i item = if item.inuse then ok (none, st) else (do
  bytecode ← free_bytecode item.bytecode_len item.bytecode
  ok (some i, save st i (record item { value = value; bytecode = bytecode })))

unfoldable pub put_value : Value → Store → ℕ → Outcome (Option ℕ × Store)
put_value value st i = do item ← load st i; put_by item.type value st i item

unfoldable pub insert_item : Store → ℕ → Bytes → Value → Outcome (Option ℕ × Store)
insert_item st root item_name value = insert_layers (put_value value) st root (split_name item_name)

abbrev pub measure_by : ItemType → Value → Outcome Bool
measure_by value_item v = measure_tail v
measure_by code_item v = ok false

-- The end of `insert_code_item`, which does not look at `inuse`.
unfoldable pub put_code : Bytes → Store → ℕ → Outcome (Option ℕ × Store)
put_code bytecode st i = do
  item ← load st i
  freed ← measure_by item.type item.value
  old ← free_bytecode item.bytecode_len item.bytecode
  ok (
    some i,
    save st i (record item {
      type = code_item;
      value = record (item.value) { type = nil };
      bytecode_len = length bytecode;
      bytecode = some bytecode;
    }),
  )

unfoldable pub insert_code_item : Store → ℕ → Bytes → Bytes → Outcome (Option ℕ × Store)
insert_code_item st root item_name bytecode =
    insert_layers (put_code bytecode) st root (split_name item_name)

abbrev pub set_found : Store → ℕ → Bytes → Value → Option ℕ → Outcome Store
set_found st root item_name value (some i) = do
  item ← load st i
  ok (save st i (record item { value = value }))
set_found st root item_name value none = do (i, st') ← insert_item st root item_name value; ok st'

unfoldable pub set_item : Store → ℕ → Bytes → Value → Outcome Store
set_item st root item_name value = do
  found ← find_item st root item_name
  set_found st root item_name value found

-- `index >= parent->ordered_size` has no child.
unfoldable pub find_item_by_index : Store → ℕ → ℕ → Outcome (Option ℕ)
find_item_by_index st parent index = do p ← load st parent; ok (get_elem? p.ordered_array index)
