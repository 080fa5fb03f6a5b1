-- ===== src/Items/Insert.antt =====
-- `insert_item` of src/item.c against `find_item`.
use sin.Items.Names.{split_name, in_first, dot}
use sin.Items.Paths.{AreLayers, path, find_layers-path, path-Grows, insert_layers-Walked}
use sin.Items.Put.{put, running, overread, double_free, put_value-Put}
use sin.Items.Save.{SameLinks, save-Grows, save-IsStore, items-save_same}
use sin.Items.Valid.{IsLive, IsStore, Grows, Grows-trans, HasRoom}
use sin.Items.Walk.{find_item, insert_item, put_value, measure_tail, free_bytecode}
use sin.Items.{value_item, code_item, Item, Store, save}
use sin.Outcome.{Outcome, ok, undefined}
use sin.Prelude.{
  ℕ, ◌≡◌, ◌≤◌, ◌⊎◌, inl, inr, ap, ◌∙◌, true, Option, none, some, List, [], ◌∷◌, length, ◌==◌, Bytes,
  arith, Bool-cases,
}
use sin.Value.{Value}

-- Item `i` is found under the name in a store that has grown out of `st`.
pub record Found (st : Store) (root : ℕ) (name : Bytes) (i : ℕ) (item : Item) (st' : Store)
    : Type 0 where
  pub store : IsStore st'
  pub grows : Grows st st'
  pub found : find_item st' root name ≡ ok (some i)
  pub at : st'.items i ≡ some item

-- The result of `insert_item`: an item with the value; or NULL, where the item is code that is
-- running; or undefined, where the old value is the empty string or the old code was freed.
pub data Inserted (value : Value) (st : Store) (root : ℕ) (name : Bytes)
    (result : Outcome (Option ℕ × Store)) : Type 0 where
  inserted :
      (i : ℕ) (item : Item) (st' : Store)
      → Found st root name i item st'
      → result ≡ ok (some i, st')
      → item.value ≡ value
      → Inserted value st root name result
  refused :
      (i : ℕ) (item : Item) (st' : Store)
      → Found st root name i item st'
      → result ≡ ok (none, st')
      → (item.type ≡ code_item) × (item.inuse ≡ true)
      → Inserted value st root name result
  faulty :
      (i : ℕ) (item : Item) (st' : Store)
      → Found st root name i item st'
      → result ≡ undefined
      → ((item.type ≡ value_item) × (measure_tail item.value ≡ undefined))
        ⊎ ((item.type ≡ code_item) × (free_bytecode item.bytecode_len item.bytecode ≡ undefined))
      → Inserted value st root name result

pub split_name-nonempty : (name : Bytes) → 1 ≤ length (split_name name)
unfolding split_name
split_name-nonempty [] = omega arith
split_name-nonempty (c ∷ cs) = elim (Bool-cases (c == dot)) [
  | inl e ↦ rw e (omega arith)
  | inr e ↦ rw e (in_first-nonempty (split_name cs))
]
  where
    in_first-nonempty : (ls : List Bytes) → 1 ≤ length (in_first c ls)
    in_first-nonempty [] = omega arith
    in_first-nonempty (l ∷ ls) = omega arith

pub find_item-path :
    (st : Store) (root : ℕ) (name : Bytes)
    → IsStore st
    → IsLive st root
    → AreLayers (split_name name)
    → find_item st root name ≡ ok (path st (some root) (split_name name))
unfolding find_item
find_item-path st root name v live h = find_layers-path st root (split_name name) v live h

-- A name that is found in a store is found in a store that has grown out of it.
pub found-Grows :
    (st st' : Store) (root : ℕ) (name : Bytes) (j : ℕ)
    → IsStore st
    → IsStore st'
    → IsLive st root
    → AreLayers (split_name name)
    → Grows st st'
    → find_item st root name ≡ ok (some j)
    → find_item st' root name ≡ ok (some j)
found-Grows st st' root name j v v' live h g found =
    let old : path st (some root) (split_name name) ≡ some j =
      (let q = find_item-path st root name v live h in cc) in
    find_item-path st' root name v' (g.lives root live) h
    ∙ ap ok (path-Grows root j (split_name name) g old)

pub Found-save :
    (st st' : Store) (root : ℕ) (name : Bytes) (i : ℕ) (item item' : Item)
    → IsLive st root
    → AreLayers (split_name name)
    → Found st root name i item st'
    → SameLinks item' item
    → Found st root name i item' (save st' i item')
Found-save st st' root name i item item' live h f same =
    let g = save-Grows st' i item item' f.at same in
    let v = save-IsStore st' i item item' f.at same f.store in
    record {
      store = v;
      grows = Grows-trans f.grows g;
      found =
          found-Grows st' (save st' i item') root name i f.store v (f.grows.lives root live) h g
            f.found;
      at = items-save_same st' i item item' f.at same;
    }

-- Where every layer has one to 32 characters and every item has room for as many more children as
-- there are layers, `insert_item` gives an item that `find_item` finds under the name and that has
-- the value, save where it refuses or faults.
pub insert_item-Inserted :
    (st : Store) (root : ℕ) (name : Bytes) (value : Value)
    → IsStore st
    → IsLive st root
    → AreLayers (split_name name)
    → HasRoom st (length (split_name name))
    → Inserted value st root name (insert_item st root name value)
unfolding insert_item
insert_item-Inserted st root name value v live h room =
    let w =
      insert_layers-Walked (put_value value) st root (split_name name) v live room h
        (split_name-nonempty name) in
    let (item, at) = w.live in
    let found =
      find_item-path w.grown root name w.store (w.grows.lives root live) h ∙ ap ok w.ends in
    let there : Found st root name w.target item w.grown = record {
      store = w.store;
      grows = w.grows;
      found = found;
      at = at;
    } in
    elim (put_value-Put value w.grown w.target item at) [
      | put item' e same q t ↦
          inserted w.target item' (save w.grown w.target item')
            (Found-save st w.grown root name w.target item item' live h there same) (w.runs ∙ e) q
      | running e t busy ↦ refused w.target item w.grown there (w.runs ∙ e) (t, busy)
      | overread e t u ↦ faulty w.target item w.grown there (w.runs ∙ e) (inl (t, u))
      | double_free e t u ↦ faulty w.target item w.grown there (w.runs ∙ e) (inr (t, u))
    ]

-- What `find_item` found before an insertion it finds after it.
pub insert_item-keeps :
    (st st' : Store) (root : ℕ) (name other : Bytes) (value : Value) (o : Option ℕ) (j : ℕ)
    → IsStore st
    → IsLive st root
    → AreLayers (split_name name)
    → HasRoom st (length (split_name name))
    → AreLayers (split_name other)
    → insert_item st root name value ≡ ok (o, st')
    → find_item st root other ≡ ok (some j)
    → find_item st' root other ≡ ok (some j)
insert_item-keeps st st' root name other value o j v live h room h' e found =
    elim (insert_item-Inserted st root name value v live h room) [
      | inserted i item st1 f r q ↦ rw (same_store r) (later st1 f.store f.grows)
      | refused i item st1 f r q ↦ rw (same_store r) (later st1 f.store f.grows)
      | faulty i item st1 f r q ↦ absurd cc
    ]
  where
    same_store :
        {o' : Option ℕ} {st1 : Store} → insert_item st root name value ≡ ok (o', st1) → st' ≡ st1
    same_store r = cc

    later : (st1 : Store) → IsStore st1 → Grows st st1 → find_item st1 root other ≡ ok (some j)
    later st1 v1 g = found-Grows st st1 root other j v v1 live h' g found
