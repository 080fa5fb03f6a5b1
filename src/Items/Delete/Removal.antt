-- ===== src/Items/Delete/Removal.antt =====
-- What `delete_item` (src/item.c) needs of a store, and what it removes from it.
use mathlib.Core.List.{flatten}
use sin.HashTable.Entries.{count, find-eq-none}
use sin.HashTable.Writes.{IsHashTable, view}
use sin.HashTable.{Entry, Chain, find_entry}
use sin.Items.Delete.Below.{
  some_number, Below, below_self, below_child, IsForest, Below-trans, Below-head, IsWhole, Shrinks,
  Shrinks-IsForest,
}
use sin.Items.Delete.{free_by}
use sin.Items.Valid.{edge}
use sin.Items.{ItemType, value_item, code_item, Item, Store}
use sin.Outcome.{ok}
use sin.Prelude.{
  Bool-cases, ℕ, ◌≤◌, ◌≡◌, refl, ◌∙◌, sym, ◌⊎◌, inl, inr, none, some, List, [], ◌∷◌, Bytes, str_eq,
  ◌+◌, ◌==◌, bit, str_eq_refl, arith,
}

-- A code item has bytecode that was not freed.
abbrev pub KeepsCode : Item → Type 0
KeepsCode item = item.type ≡ code_item → (b : Bytes) × (item.bytecode ≡ some b)

-- A store whose items can be freed one by one.
pub record IsOwned (st : Store) : Type 0 where
  pub forest : IsForest st
  pub fresh : (i : ℕ) → st.next ≤ i → st.items i ≡ none
  pub tables : (i : ℕ) (item : Item) → st.items i ≡ some item → IsHashTable item.children
  pub codes : (i : ℕ) (item : Item) → st.items i ≡ some item → KeepsCode item

-- How often an item stands in an array.
unfoldable pub count_item : ℕ → List ℕ → ℕ
count_item x [] = 0
count_item x (j ∷ js) = bit (x == j) + count_item x js

-- The arrays of children hold children of the item alone, and each of them once.
pub record IsOrdered (st : Store) : Type 0 where
  pub children :
      (j x : ℕ) (item : Item)
      → st.items j ≡ some item
      → 1 ≤ count_item x item.ordered_array
      → (k : Bytes) × (edge st j k ≡ some x)
  pub once : (j x : ℕ) (item : Item) → st.items j ≡ some item → count_item x item.ordered_array ≤ 1

-- The keys of a chain of children of item `i`, each once.
pub data Siblings (st : Store) (i : ℕ) : Chain ℕ → Type 0 where
  alone : Siblings st i []
  before :
      {e : Entry ℕ} {es : Chain ℕ}
      → edge st i e.key ≡ some e.child
      → count e.key es ≡ 0
      → Siblings st i es
      → Siblings st i (e ∷ es)

-- Below one of the entries.
abbrev pub BelowAny : Store → Chain ℕ → ℕ → Type 0
BelowAny st [] j = ⊥
BelowAny st (e ∷ es) j = Below st e.child j ⊎ BelowAny st es j

-- What `S` holds of has gone, and the rest is as it was.
pub record Removed (S : ℕ → Type 0) (st st' : Store) : Type 0 where
  pub next : st'.next ≡ st.next
  pub gone : (j : ℕ) → S j → st'.items j ≡ none
  pub kept : (j : ℕ) → (S j → ⊥) → st'.items j ≡ st.items j
  pub either : (j : ℕ) → S j ⊎ (st'.items j ≡ st.items j)

pub Removed-Shrinks : {S : ℕ → Type 0} {st st' : Store} → Removed S st st' → Shrinks st st'
Removed-Shrinks r j = elim (r.either j) [ inl s ↦ inl (r.gone j s) | inr e ↦ inr e ]

pub Shrinks-IsOwned :
    {st st' : Store} → IsOwned st → Shrinks st st' → st'.next ≡ st.next → IsOwned st'
Shrinks-IsOwned {st} {st'} o s e = record {
  forest = Shrinks-IsForest o.forest s;
  fresh = λ i le. elim (s i) [ inl q ↦ q | inr q ↦ q ∙ o.fresh i (omega arith) ];
  tables = λ i item at. elim (s i) [
    | inl q ↦ absurd (let e' : none ≡ some item = sym q ∙ at in cc)
    | inr q ↦ o.tables i item (sym q ∙ at)
  ];
  codes = λ i item at. elim (s i) [
    | inl q ↦ absurd (let e' : none ≡ some item = sym q ∙ at in cc)
    | inr q ↦ o.codes i item (sym q ∙ at)
  ];
}

pub free_by-KeepsCode : (item : Item) → KeepsCode item → free_by item.type item.bytecode ≡ ok tt
free_by-KeepsCode item h = by_type item.type refl
  where
    by_type : (t : ItemType) → item.type ≡ t → free_by item.type item.bytecode ≡ ok tt
    by_type value_item e = rw e refl
    by_type code_item e = (let (b, q) = h e in rw (e, q) refl)

-- A chain without doubles whose entries are edges.
pub Siblings-of :
    (st : Store) (i : ℕ) (es : Chain ℕ)
    → ((k : Bytes) → count k es ≤ 1)
    → ((k : Bytes) (c : ℕ) → find_entry k es ≡ some c → edge st i k ≡ some c)
    → Siblings st i es
unfolding count find_entry
Siblings-of st i [] once edges = alone
Siblings-of st i (e ∷ es) once edges =
    let self = str_eq_refl e.key in
    before (edges e.key e.child (rw self refl)) (let h = once e.key in ground arith) (
      Siblings-of st i es (λ k. let h = once k in omega arith)
        (λ k c q. edges k c (let h = once k in ground (arith, find-eq-none k es))))

-- A child below which an item stands is one of the entries.
entry_above :
    (st : Store) (k : Bytes) (c j : ℕ) (es : Chain ℕ)
    → find_entry k es ≡ some c
    → Below st c j
    → BelowAny st es j
unfolding find_entry
entry_above st k c j [] e b = absurd (let e' : none ≡ some c = e in cc)
entry_above st k c j (x ∷ es) e b = elim (Bool-cases (str_eq x.key k)) [
  | inl same ↦ inl (let q : x.child ≡ c = some_number (rw same at e) in rw q b)
  | inr other ↦ inr (entry_above st k c j es (rw other at e) b)
]

-- Below the item, where its children stand in the chain.
pub Below-entries :
    {st : Store} {i : ℕ} (item : Item) (j : ℕ)
    → st.items i ≡ some item
    → Below st i j
    → (j ≡ i) ⊎ BelowAny st (flatten item.children.table) j
unfolding view
Below-entries {st} item j at b = elim (Below-head b) [
  | inl same ↦ inl same
  | inr (k, c, e, b') ↦ inr (entry_above st k c j (flatten item.children.table) (rw at at e) b')
]

pub BelowAny-Below :
    {st : Store} {i : ℕ} (es : Chain ℕ) (j : ℕ) → Siblings st i es → BelowAny st es j → Below st i j
BelowAny-Below (e ∷ es) j (before x n s) (inl b) = Below-trans (below_child e.key below_self x) b
BelowAny-Below (e ∷ es) j (before x n s) (inr b) = BelowAny-Below es j s b
BelowAny-Below [] j s b = absurd b

abbrev pub AllWhole : Store → Chain ℕ → Type 0
AllWhole st [] = Unit {0}
AllWhole st (e ∷ es) = IsWhole st e.child × AllWhole st es

pub all_whole :
    {st : Store} {i : ℕ} (es : Chain ℕ) → Siblings st i es → IsWhole st i → AllWhole st es
all_whole [] s w = tt
all_whole (e ∷ es) (before x n s) w =
    (λ j b. w j (Below-trans (below_child e.key below_self x) b), all_whole es s w)
