-- ===== src/HashTable.antt =====
-- The hash table of src/item.c: separate chaining, new entries at the end of their chain. It is
-- generic in what stands for the `ITEM_t *` of an entry.
pub mod Entries
pub mod Placed
pub mod Writes
pub mod Map
use mathlib.Core.List.{flatten}
use sin.Hash.{hash_key}
use sin.Outcome.{Outcome, ok, undefined, ◌>>=◌, from_option}
use sin.Prelude.{
  ℕ, ◌+◌, ◌*◌, ◌%◌, Option, none, some, List, [], ◌∷◌, ◌++◌, length, get_elem?, set, replicate, ltb,
  ◌==◌, if◌then◌else◌, Bytes, str_eq,
}

-- `ENTRY_t`; the `next` pointers make a chain a list.
pub record Entry {ℓ} (A : Type ℓ) : Type ℓ where
  pub key : Bytes
  pub child : A

abbrev pub Chain {ℓ} : Type ℓ → Type ℓ
Chain A = List (Entry A)

-- `HASHTABLE_t`
pub record HashTable {ℓ} (A : Type ℓ) : Type ℓ where
  pub size : ℕ
  pub table : List (Chain A)

unfoldable pub create_hashtable {ℓ} : {A : Type ℓ} → ℕ → HashTable A
create_hashtable size = record { size = size; table = replicate size [] }

-- `hashindex %= hashtable->size`
unfoldable pub hash_index : Bytes → ℕ → Outcome ℕ
hash_index key size = if size == 0 then undefined else ok (hash_key key % size)

module _ {ℓ} {A : Type ℓ} where
  -- The walk along a chain, up to an entry with the key.
  unfoldable pub find_entry : Bytes → Chain A → Option A
  unfolding str_eq
  find_entry k [] = none
  find_entry k (e ∷ c) = if str_eq e.key k then some e.child else find_entry k c

  -- The same walk, which unlinks the entry that it finds.
  unfoldable pub remove_entry : Bytes → Chain A → Chain A
  unfolding str_eq
  remove_entry k [] = []
  remove_entry k (e ∷ c) = if str_eq e.key k then c else e ∷ remove_entry k c

  -- An entry goes to the end of its chain: `insert_hashtable`, and the body of the loop of
  -- `resize_hashtable`.
  unfoldable pub append_entry : HashTable A → Entry A → Outcome (HashTable A)
  append_entry t e = do
    i ← hash_index e.key t.size
    chain ← from_option (get_elem? t.table i)
    ok (record t { table = set t.table i (chain ++ (e ∷ [])) })

  unfoldable pub insert_hashtable : HashTable A → Bytes → A → Outcome (HashTable A)
  insert_hashtable t key child = append_entry t (record { key = key; child = child })

  unfoldable pub search_hashtable : HashTable A → Bytes → Outcome (Option A)
  search_hashtable t key = do
    i ← hash_index key t.size
    chain ← from_option (get_elem? t.table i)
    ok (find_entry key chain)

  unfoldable pub delete_hashtable : HashTable A → Bytes → Outcome (HashTable A)
  delete_hashtable t key = do
    i ← hash_index key t.size
    chain ← from_option (get_elem? t.table i)
    ok (record t { table = set t.table i (remove_entry key chain) })

  -- The inner loop of `resize_hashtable` over a chain, and the outer one over the buckets.
  unfoldable pub move_chain : Chain A → HashTable A → Outcome (HashTable A)
  move_chain [] t = ok t
  move_chain (e ∷ c) t = append_entry t e >>= move_chain c

  unfoldable pub move_chains : List (Chain A) → HashTable A → Outcome (HashTable A)
  move_chains [] t = ok t
  move_chains (c ∷ cs) t = move_chain c t >>= move_chains cs

  unfoldable pub resize_hashtable : HashTable A → ℕ → Outcome (HashTable A)
  resize_hashtable t newsize = move_chains t.table (create_hashtable newsize)

  -- The entries that `calculate_load_factor` counts.
  unfoldable pub num_entries : HashTable A → ℕ
  unfolding flatten
  num_entries t = length (flatten t.table)

  -- `loadfactor > 0.75`. The quotient of two floats compares as the exact one does for tables of
  -- fewer than 2 ^ 22 buckets; a division by 0 gives no number, and fails the test.
  unfoldable pub maybe_resize_hashtable : HashTable A → Outcome (HashTable A)
  maybe_resize_hashtable t =
      if ltb (t.size * 3) (num_entries t * 4) then resize_hashtable t (t.size * 2 + 1) else ok t
