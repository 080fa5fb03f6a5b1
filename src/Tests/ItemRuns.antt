-- ===== src/Tests/ItemRuns.antt =====
-- Runs of the items of src/item.c and of the opcodes on them.
use mathlib.Core.List.{flatten}
use native.Mathlib.Decide.{ℕ_discrete}
use sin.Hash.{hash_key}
use sin.HashTable.Entries.{count}
use sin.HashTable.Writes.{IsHashTable, view}
use sin.HashTable.{
  HashTable, find_entry, search_hashtable, hash_index, insert_hashtable, append_entry,
  maybe_resize_hashtable, num_entries, create_hashtable,
}
use sin.Items.Insert.{Inserted, insert_item-Inserted, insert_item-keeps}
use sin.Items.InsertCode.{CodeInserted, insert_code_item-CodeInserted, insert_item-dangling}
use sin.Items.Names.{split_name, copy_layer}
use sin.Items.Valid.{IsLive, IsItem, IsStore, HasRoom, edge_of}
use sin.Items.Walk.{
  find_item, insert_item, insert_code_item, child_of, find_layers, insert_layers, put_value,
}
use sin.Items.{
  ItemType, value_item, code_item, Item, Store, new_item, load, make_item, adopt,
  resize_ordered_array, append_ordered,
}
use sin.Outcome.{Outcome, ok, raised, undefined}
use sin.Prelude.{
  ℕ, ◌≤◌, ◌≡◌, refl, sym, ap, ◌∙◌, Option, none, some, List, [], ◌∷◌, length, set, replicate, ◌==◌,
  if◌then◌else◌, false, Bytes, codes, str_eq, arith,
}
use sin.Value.{Value, int_value, value_nil}

-- A root with one child `b`, which is code.
abbrev pub one_child : HashTable ℕ
one_child = record {
  size = 16;
  table = set (replicate 16 []) 2 (record { key = codes "b"; child = 1 } ∷ []);
}

pub one_child-IsHashTable : IsHashTable one_child
unfolding flatten count str_eq hash_key
one_child-IsHashTable = record {
  sound = record {
    sized = refl;
    nonempty = omega arith;
    placed = (
      tt,
      (
        tt,
        (
          (refl, tt),
          (tt, (tt, (tt, (tt, (tt, (tt, (tt, (tt, (tt, (tt, (tt, (tt, (tt, tt))))))))))))),
        ),
      ),
    );
  };
  unique = λ k. ground arith;
}

abbrev pub no_children : HashTable ℕ
no_children = record { size = 16; table = replicate 16 [] }

abbrev pub item_of : Bytes → ItemType → Value → Option Bytes → HashTable ℕ → List ℕ → Item
item_of name type value bytecode children ordered = record {
  type = type;
  bytecode_len = elim bytecode [ none ↦ 0 | some b ↦ length b ];
  name = name;
  inuse = false;
  parent = some 0;
  children = children;
  bytecode = bytecode;
  value = value;
  ordered_capacity = 10;
  ordered_array = ordered;
}

abbrev pub root_item : Item
root_item = record (item_of [] value_item (int_value 0) (some []) one_child (1 ∷ [])) {
  parent = none;
}

-- Code without locals that stops at once.
abbrev pub b_item : Item
b_item = item_of (codes "b") code_item value_nil (some (0 ∷ 0 ∷ 104 ∷ [])) no_children []

abbrev pub small_store : Store
small_store = record {
  items = λ i. if 0 == i then some root_item else if 1 == i then some b_item else none;
  next = 2;
}

pub root-IsLive : IsLive small_store 0
root-IsLive = (root_item, refl)

pub data Place (i : ℕ) (o : Option Item) : Type 0 where
  at_root : o ≡ some root_item → Place i o
  at_b : o ≡ some b_item → Place i o
  outside : o ≡ none → Place i o

pub place : (i : ℕ) → Place i (small_store.items i)
place i = elim (ℕ_discrete 0 i) [
  | yes e ↦ at_root (ground arith)
  | no n0 ↦ elim (ℕ_discrete 1 i) [ yes e ↦ at_b (ground arith) | no n1 ↦ outside (ground arith) ]
]

pub no_children-IsHashTable : IsHashTable no_children
unfolding flatten count
no_children-IsHashTable = record {
  sound = record {
    sized = refl;
    nonempty = omega arith;
    placed = (
      tt,
      (tt, (tt, (tt, (tt, (tt, (tt, (tt, (tt, (tt, (tt, (tt, (tt, (tt, (tt, (tt, tt))))))))))))))),
    );
  };
  unique = λ k. ground arith;
}

root_item-IsItem : IsItem root_item
root_item-IsItem = record {
  table = one_child-IsHashTable;
  by_ten = refl;
  bounded = omega arith;
  fits = omega arith;
}

pub b_item-IsItem : IsItem b_item
b_item-IsItem = record {
  table = no_children-IsHashTable;
  by_ten = refl;
  bounded = omega arith;
  fits = omega arith;
}

pub only_child : (k : Bytes) (c : ℕ) → view one_child k ≡ some c → c ≡ 1
unfolding view flatten find_entry str_eq
only_child k c e = ground arith

pub no_child : (k : Bytes) (c : ℕ) → view no_children k ≡ some c → ⊥
unfolding view flatten find_entry
no_child k c e = cc

pub some_inj : {a b : Item} → some a ≡ some b → a ≡ b
some_inj e = cc

pub small_store-IsStore : IsStore small_store
small_store-IsStore = record {
  fresh = λ i le. ground arith;
  sound = λ i item e. elim (place i) [
    | at_root q ↦ rw (← some_inj (sym q ∙ e)) root_item-IsItem
    | at_b q ↦ rw (← some_inj (sym q ∙ e)) b_item-IsItem
    | outside q ↦ absurd cc
  ];
  closed = λ i k c e. elim (place i) [
    | at_root q ↦
        (let e' : c ≡ 1 = only_child k c (ap (λ o. edge_of o k) (sym q) ∙ e) in
          (b_item, rw e' refl))
    | at_b q ↦ absurd (no_child k c (ap (λ o. edge_of o k) (sym q) ∙ e))
    | outside q ↦ absurd (let e' : none ≡ some c = ap (λ o. edge_of o k) (sym q) ∙ e in cc)
  ];
}

pub small_store-HasRoom : (n : ℕ) → n ≤ 200 → HasRoom small_store n
small_store-HasRoom n le i item e = elim (place i) [
  | at_root q ↦ rw (← some_inj (sym q ∙ e)) (omega arith)
  | at_b q ↦ rw (← some_inj (sym q ∙ e)) (omega arith)
  | outside q ↦ absurd cc
]

insert_item-Inserted_example :
    Inserted
      (int_value 7)
      small_store
      0
      (codes "b.c.d")
      (insert_item small_store 0 (codes "b.c.d") (int_value 7))
unfolding split_name
insert_item-Inserted_example =
    insert_item-Inserted small_store 0 (codes "b.c.d") (int_value 7) small_store-IsStore root-IsLive
      (omega arith, omega arith, (omega arith, omega arith, (omega arith, omega arith, tt)))
      (small_store-HasRoom 3 (omega arith))

insert_code_item-CodeInserted_example :
    CodeInserted
      (0 ∷ 0 ∷ 104 ∷ [])
      small_store
      0
      (codes "c")
      (insert_code_item small_store 0 (codes "c") (0 ∷ 0 ∷ 104 ∷ []))
unfolding split_name
insert_code_item-CodeInserted_example =
    insert_code_item-CodeInserted small_store 0 (codes "c") (0 ∷ 0 ∷ 104 ∷ []) small_store-IsStore
      root-IsLive (omega arith, omega arith, tt) (small_store-HasRoom 1 (omega arith))

pub b_found : find_item small_store 0 (codes "b") ≡ ok (some 1)
unfolding find_item find_layers split_name child_of load search_hashtable copy_layer hash_index
    find_entry str_eq hash_key
b_found = refl

insert_item-dangling_example :
    (st' : Store) × (item' : Item) × (insert_item small_store 0 (codes "b") (int_value 7)
      ≡ ok (some 1, st'))
    × (st'.items 1 ≡ some item')
    × (item'.type ≡ code_item)
    × (item'.bytecode_len ≡ 3)
    × (item'.bytecode ≡ none)
unfolding split_name
insert_item-dangling_example =
    insert_item-dangling small_store 0 (codes "b") (int_value 7) 1 2 b_item (0 ∷ 0 ∷ 104 ∷ [])
      small_store-IsStore root-IsLive (omega arith, omega arith, tt) b_found refl refl refl refl
      refl

unfoldable pub store_after : Outcome (Option ℕ × Store) → Store
store_after (ok (i, st)) = st
store_after raised = small_store
store_after undefined = small_store

-- `c` is made beside `b`.
abbrev pub with_c : Store
with_c = store_after (insert_item small_store 0 (codes "c") (int_value 7))

insert_item-keeps_example : find_item with_c 0 (codes "b") ≡ ok (some 1)
unfolding store_after insert_item insert_layers put_value split_name child_of load search_hashtable
    copy_layer hash_index find_entry str_eq hash_key make_item adopt insert_hashtable append_entry
    maybe_resize_hashtable num_entries flatten resize_ordered_array append_ordered new_item
    create_hashtable
insert_item-keeps_example =
    insert_item-keeps small_store with_c 0 (codes "c") (codes "b") (int_value 7) (some 2) 1
      small_store-IsStore root-IsLive (omega arith, omega arith, tt)
      (small_store-HasRoom 1 (omega arith)) (omega arith, omega arith, tt) refl b_found
