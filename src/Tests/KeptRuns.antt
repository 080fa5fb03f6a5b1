-- ===== src/Tests/KeptRuns.antt =====
-- Runs of insertion (src/item.c) in a store whose items are owned by their parents.
use mathlib.Core.List.{flatten}
use sin.Hash.{hash_key}
use sin.HashTable.{
  find_entry, search_hashtable, hash_index, insert_hashtable, append_entry, maybe_resize_hashtable,
  num_entries, create_hashtable,
}
use sin.Items.Delete.Removal.{IsOwned, IsOrdered}
use sin.Items.Delete.Ordered.{insert_item-IsOrdered}
use sin.Items.Delete.Kept.{insert_code_item-IsOwned, insert_item-IsOwned}
use sin.Items.Names.{split_name, copy_layer}
use sin.Items.Walk.{insert_item, insert_code_item, child_of, insert_layers, put_value, put_code}
use sin.Items.{
  ItemType, value_item, code_item, Item, Store, new_item, load, make_item, adopt,
  resize_ordered_array, append_ordered,
}
use sin.Prelude.{ℕ, ◌≡◌, refl, sym, ap, ◌∙◌, Option, none, some, [], ◌∷◌, codes, str_eq, arith}
use sin.Tests.DeleteRuns.{small_store-IsOwned, small_store-IsOrdered}
use sin.Tests.ItemRuns.{
  small_store, small_store-IsStore, small_store-HasRoom, root-IsLive, store_after, with_c,
}
use sin.Value.{int_value}

-- The code of `b` is replaced.
abbrev with_code : Store
with_code = store_after (insert_code_item small_store 0 (codes "b") (0 ∷ 0 ∷ 110 ∷ 104 ∷ []))

insert_code_item-IsOwned_example : IsOwned with_code
unfolding store_after insert_code_item insert_layers put_code split_name child_of load
    search_hashtable copy_layer hash_index find_entry str_eq hash_key
insert_code_item-IsOwned_example =
    insert_code_item-IsOwned small_store with_code 0 (codes "b") (0 ∷ 0 ∷ 110 ∷ 104 ∷ []) (some 1)
      small_store-IsStore small_store-IsOwned root-IsLive (omega arith, omega arith, tt)
      (small_store-HasRoom 1 (omega arith)) refl

type_of : Option Item → ItemType
type_of (some item) = item.type
type_of none = code_item

c_is_value :
    (i : ℕ) (item : Item) → some 2 ≡ some i → with_c.items i ≡ some item → item.type ≡ value_item
unfolding store_after insert_item insert_layers put_value split_name child_of load search_hashtable
    copy_layer hash_index find_entry str_eq hash_key make_item adopt insert_hashtable append_entry
    maybe_resize_hashtable num_entries flatten resize_ordered_array append_ordered new_item
    create_hashtable type_of
c_is_value i item e at =
    let i_c : 2 ≡ i = cc in
    let there : with_c.items 2 ≡ some item = ap with_c.items i_c ∙ at in sym (ap type_of there)

insert_item-IsOwned_example : IsOwned with_c
unfolding store_after insert_item insert_layers put_value split_name child_of load search_hashtable
    copy_layer hash_index find_entry str_eq hash_key make_item adopt insert_hashtable append_entry
    maybe_resize_hashtable num_entries flatten resize_ordered_array append_ordered new_item
    create_hashtable
insert_item-IsOwned_example =
    insert_item-IsOwned small_store with_c 0 (codes "c") (int_value 7) (some 2) small_store-IsStore
      small_store-IsOwned root-IsLive (omega arith, omega arith, tt)
      (small_store-HasRoom 1 (omega arith)) refl c_is_value

insert_item-IsOrdered_example : IsOrdered with_c
unfolding store_after insert_item insert_layers put_value split_name child_of load search_hashtable
    copy_layer hash_index find_entry str_eq hash_key make_item adopt insert_hashtable append_entry
    maybe_resize_hashtable num_entries flatten resize_ordered_array append_ordered new_item
    create_hashtable
insert_item-IsOrdered_example =
    insert_item-IsOrdered small_store with_c 0 (codes "c") (int_value 7) (some 2)
      small_store-IsStore small_store-IsOrdered root-IsLive (omega arith, omega arith, tt)
      (small_store-HasRoom 1 (omega arith)) refl
