-- ===== src/HashTable/Writes.antt =====
-- What a write to one bucket does to the table of src/item.c, and reads from it.
use mathlib.Core.List.{flatten}
use native.Mathlib.Decide.{ℕ_discrete}
use sin.HashTable.Entries.{count, or_else, find-append, count-append}
use sin.HashTable.Placed.{home, Placed, chain_of, find-chain_of, count-chain_of, Placed-append}
use sin.HashTable.{Entry, Chain, HashTable, hash_index, find_entry, append_entry, search_hashtable}
use sin.Outcome.{ok, Returns}
use sin.Prelude.{
  ℕ, bit, zero, suc, ◌+◌, ◌≤◌, ◌<◌, ◌≡◌, ◌≢◌, refl, ap, ◌∙◌, sym, Option, none, some, List, [], ◌∷◌,
  ◌++◌, arith, length, get_elem?, get_or, set, length-set, get_or-set_self, get_or-set_ne, false,
  if◌then◌else◌, Bytes, str_eq, str_eq→eq, Bool-cases, inl, inr,
}

-- The map that a table stands for, which says nothing of buckets.
unfoldable pub view {ℓ} : {A : Type ℓ} → HashTable A → Bytes → Option A
view t k = find_entry k (flatten t.table)

-- Every entry stands in the bucket of its hash.
pub record IsSound {ℓ} {A : Type ℓ} (t : HashTable A) : Type ℓ where
  pub sized : length t.table ≡ t.size
  pub nonempty : 0 < t.size
  pub placed : Placed t.size 0 t.table

-- And no key occurs twice.
pub record IsHashTable {ℓ} {A : Type ℓ} (t : HashTable A) : Type ℓ where
  pub sound : IsSound t
  pub unique : (k : Bytes) → count k (flatten t.table) ≤ 1

-- `t` is a sound table and stands for `f`.
abbrev pub Models {ℓ} : {A : Type ℓ} → (Bytes → Option A) → HashTable A → Type ℓ
Models f t = IsHashTable t × ((k : Bytes) → view t k ≡ f k)

abbrev pub update {ℓ} : {A : Type ℓ} → (Bytes → Option A) → Bytes → Option A → Bytes → Option A
update f k o q = if str_eq k q then o else f q

pub hash_index-home : (k : Bytes) (n : ℕ) → 0 < n → hash_index k n ≡ ok (home n k)
unfolding hash_index
hash_index-home k n h = ground arith

get_elem?-eq-get_or {ℓ} :
    {A : Type ℓ} (xs : List A) (i : ℕ) (d : A)
    → i < length xs
    → get_elem? xs i ≡ some (get_or xs i d)
get_elem?-eq-get_or [] i d h = absurd (omega arith)
get_elem?-eq-get_or (x ∷ xs) zero d h = refl
get_elem?-eq-get_or (x ∷ xs) (suc i) d h = get_elem?-eq-get_or xs i d (omega arith)

home-lt : (k : Bytes) (n : ℕ) → 0 < n → home n k < n
home-lt k n h = omega arith

module _ {ℓ} {A : Type ℓ} (t : HashTable A) (v : IsSound t) (k : Bytes) where
  home_in_table : home t.size k < length t.table
  home_in_table = omega (arith, v.sized, home-lt k t.size v.nonempty)

  pub chain-eq : get_elem? t.table (home t.size k) ≡ some (chain_of t.size t.table k)
  chain-eq = get_elem?-eq-get_or t.table (home t.size k) [] home_in_table

  -- A write to the bucket of `k`, as the other keys see it.
  pub chain_of-set_same :
      (c : Chain A) (q : Bytes)
      → home t.size q ≡ home t.size k
      → chain_of t.size (set t.table (home t.size k) c) q ≡ c
  chain_of-set_same c q e = rw (e, get_or-set_self t.table (home t.size k) c [] home_in_table) refl

  pub chain_of-set_ne :
      (c : Chain A) (q : Bytes)
      → home t.size q ≢ home t.size k
      → chain_of t.size (set t.table (home t.size k) c) q ≡ chain_of t.size t.table q
  chain_of-set_ne c q ne =
      get_or-set_ne t.table {i = home t.size k} {j = home t.size q} c [] (λ e. ne (sym e))

-- Keys that are one key have one bucket.
pub other_home : (n : ℕ) (k q : Bytes) → home n q ≢ home n k → str_eq k q ≡ false
other_home n k q ne = elim (Bool-cases (str_eq k q)) [
  | inl same ↦ absurd (ne (sym (ap (home n) (str_eq→eq k q same))))
  | inr other ↦ other
]

module _ {ℓ} {A : Type ℓ} (t : HashTable A) (v : IsSound t) (e : Entry A) (q : Bytes) where
  longer : Chain A
  longer = chain_of t.size t.table e.key ++ (e ∷ [])

  appended : List (Chain A)
  appended = set t.table (home t.size e.key) longer

  appended-reads :
      find_entry q (flatten appended)
      ≡ or_else (find_entry q (flatten t.table)) (if str_eq e.key q then some e.child else none)
  unfolding find_entry appended longer
  appended-reads =
      rw
        (
          find-chain_of t.size appended (Placed-append t.size t.table v.placed e) q,
          find-chain_of t.size t.table v.placed q,
        )
        (elim (ℕ_discrete (home t.size q) (home t.size e.key)) [
          | yes same ↦
              let e1 = chain_of-set_same t v e.key longer q same in
              let e2 : chain_of t.size t.table q ≡ chain_of t.size t.table e.key =
                ap (λ i. get_or t.table i []) same in
              let e3 = find-append q (chain_of t.size t.table e.key) (e ∷ []) in
              rw (e1, e2) (ground arith)
          | no ne ↦
              let e1 = chain_of-set_ne t v e.key longer q ne in
              rw (e1, other_home t.size e.key q ne) (ground arith)
        ])

  appended-counts : count q (flatten appended) ≡ count q (flatten t.table) + bit (str_eq e.key q)
  unfolding count appended longer
  appended-counts =
      rw
        (
          count-chain_of t.size appended (Placed-append t.size t.table v.placed e) q,
          count-chain_of t.size t.table v.placed q,
        )
        (elim (ℕ_discrete (home t.size q) (home t.size e.key)) [
          | yes same ↦
              let e1 = chain_of-set_same t v e.key longer q same in
              let e2 : chain_of t.size t.table q ≡ chain_of t.size t.table e.key =
                ap (λ i. get_or t.table i []) same in
              let e3 = count-append q (chain_of t.size t.table e.key) (e ∷ []) in
              rw (e1, e2) (ground arith)
          | no ne ↦
              let e1 = chain_of-set_ne t v e.key longer q ne in
              rw (e1, other_home t.size e.key q ne) (ground arith)
        ])

module _ {ℓ} {A : Type ℓ} where
  -- `search_hashtable` reads the map.
  pub search_hashtable-view :
      (t : HashTable A) (k : Bytes) → IsSound t → search_hashtable t k ≡ ok (view t k)
  unfolding search_hashtable view
  search_hashtable-view t k v =
      rw
        (
          hash_index-home k t.size v.nonempty,
          chain-eq t v k,
          find-chain_of t.size t.table v.placed k,
        )
        refl

  -- What one entry more at the end of its chain does to a table.
  pub record Appended (t : HashTable A) (e : Entry A) (t' : HashTable A) : Type ℓ where
    pub sound : IsSound t'
    pub size : t'.size ≡ t.size
    pub reads :
        (q : Bytes) → view t' q ≡ or_else (view t q) (if str_eq e.key q then some e.child else none)
    pub counts :
        (q : Bytes) → count q (flatten t'.table) ≡ count q (flatten t.table) + bit (str_eq e.key q)

  pub append_entry-Appended :
      (t : HashTable A) (e : Entry A) → IsSound t → Returns (append_entry t e) (Appended t e)
  unfolding append_entry view appended longer
  append_entry-Appended t e v = (
    record t { table = appended t v e e.key },
    rw (hash_index-home e.key t.size v.nonempty, chain-eq t v e.key) refl,
    record {
      sound = record {
        sized = length-set t.table _ (longer t v e e.key) ∙ v.sized;
        nonempty = v.nonempty;
        placed = Placed-append t.size t.table v.placed e;
      };
      size = refl;
      reads = appended-reads t v e;
      counts = appended-counts t v e;
    },
  )
