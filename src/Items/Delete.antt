-- ===== src/Items/Delete.antt =====
-- `destroy_item`, `free_hashtable` and `delete_item` of src/item.c.
pub mod Below
pub mod Removal
pub mod Destroy
pub mod Unlink
pub mod Deleted
pub mod Owned
pub mod Walks
pub mod Kept
pub mod Ordered
use mathlib.Core.List.{flatten}
use sin.HashTable.{Chain, delete_hashtable}
use sin.Items.Walk.{find_item}
use sin.Items.{ItemType, value_item, code_item, Item, Store, load, save}
use sin.Outcome.{Outcome, ok, undefined, ◌>>=◌, from_option}
use sin.Prelude.{ℕ, zero, suc, Option, none, some, List, [], ◌∷◌, ◌==◌, if◌then◌else◌, Bytes}

-- The loops of `free_hashtable`, over the buckets and along each chain.
unfoldable pub destroy_entries : (ℕ → Store → Outcome Store) → Chain ℕ → Store → Outcome Store
destroy_entries destroy [] st = ok st
destroy_entries destroy (e ∷ es) st = do st1 ← destroy e.child st; destroy_entries destroy es st1

-- `free(item->bytecode)` of a code item, which is undefined where it was freed before.
abbrev pub free_by : ItemType → Option Bytes → Outcome (Unit {0})
free_by value_item bytecode = ok tt
free_by code_item none = undefined
free_by code_item (some b) = ok tt

-- `deallocate_item`
abbrev pub forget : Store → ℕ → Store
forget st i = record st { items = λ j. if i == j then none else st.items j }

-- The first argument bounds the depth of the tree.
unfoldable pub destroy_item : ℕ → ℕ → Store → Outcome Store
unfolding flatten
destroy_item zero i st = undefined
destroy_item (suc fuel) i st = do
  item ← load st i
  freed ← free_by item.type item.bytecode
  st1 ← destroy_entries (destroy_item fuel) (flatten item.children.table) st
  ok (forget st1 i)

-- The loop that shifts the elements behind the item to the left.
unfoldable pub remove_ordered : ℕ → List ℕ → List ℕ
remove_ordered i [] = []
remove_ordered i (j ∷ js) = if i == j then js else j ∷ remove_ordered i js

-- The parent of the root is NULL. No tree is deeper than the number of items.
unfoldable pub delete_found : Store → Option ℕ → Outcome Store
delete_found st none = ok st
delete_found st (some i) = do
  item ← load st i
  if item.inuse then ok st else (do
    parent ← from_option item.parent
    p ← load st parent
    children ← delete_hashtable p.children item.name
    destroy_item st.next i (
        save st parent
          (record p { children = children; ordered_array = remove_ordered i p.ordered_array })))

unfoldable pub delete_item : Store → ℕ → Bytes → Outcome Store
delete_item st root item_name = do found ← find_item st root item_name; delete_found st found
