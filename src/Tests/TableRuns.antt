-- ===== src/Tests/TableRuns.antt =====
-- Runs of the hash table of src/item.c.
use sin.HashTable.Map.{
  insert_hashtable-Models, maybe_resize_hashtable-Models, delete_hashtable-Models,
}
use sin.HashTable.Writes.{IsHashTable, Models, view, update}
use sin.HashTable.Placed.{home}
use sin.HashTable.Entries.{count}
use mathlib.Core.List.{flatten}
use sin.Hash.{hash_key}
use sin.HashTable.Map.{create_hashtable-Models}
use sin.HashTable.{
  HashTable, create_hashtable, insert_hashtable, delete_hashtable, maybe_resize_hashtable,
}
use sin.Outcome.{Returns}
use sin.Prelude.{ℕ, ◌≡◌, refl, none, some, arith, codes, set, replicate, [], ◌∷◌, str_eq}

-- A new table of the size that an item starts with.
abbrev new_table : HashTable ℕ
new_table = create_hashtable 7

new_table-IsHashTable : IsHashTable new_table
new_table-IsHashTable = (create_hashtable-Models 7 (omega arith)).0

insert_hashtable-Models_example : Returns (insert_hashtable new_table (codes "sword") 3) (λ t'.
    Models (update (view new_table) (codes "sword") (some 3)) t' × (t'.size ≡ new_table.size))
insert_hashtable-Models_example =
    insert_hashtable-Models new_table (codes "sword") 3 new_table-IsHashTable
      ((create_hashtable-Models {A = ℕ} 7 (omega arith)).1 (codes "sword"))

-- The table with one entry, in the bucket of its hash.
abbrev one_entry : HashTable ℕ
one_entry = record {
  size = 7;
  table =
      set (replicate 7 []) (home 7 (codes "sword"))
        (record { key = codes "sword"; child = 3 } ∷ []);
}

one_entry-IsHashTable : IsHashTable one_entry
unfolding flatten count str_eq hash_key
one_entry-IsHashTable = record {
  sound = record {
    sized = refl;
    nonempty = omega arith;
    placed = (tt, ((refl, tt), (tt, (tt, (tt, (tt, (tt, tt)))))));
  };
  unique = λ k. ground arith;
}

delete_hashtable-Models_example :
    Returns
      (delete_hashtable one_entry (codes "sword"))
      (λ t'. Models (update (view one_entry) (codes "sword") none) t' × (t'.size ≡ one_entry.size))
delete_hashtable-Models_example =
    delete_hashtable-Models one_entry (codes "sword") one_entry-IsHashTable

maybe_resize_hashtable-Models_example :
    Returns (maybe_resize_hashtable one_entry) (Models (view one_entry))
maybe_resize_hashtable-Models_example =
    maybe_resize_hashtable-Models one_entry one_entry-IsHashTable
