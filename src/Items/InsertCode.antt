-- ===== src/Items/InsertCode.antt =====
-- `insert_code_item` of src/item.c against `find_item`, and code that `insert_item` leaves behind.
use sin.Items.Insert.{Found, Found-save, find_item-path, split_name-nonempty}
use sin.Items.Make.{copy_layer-short}
use sin.Items.Names.{split_name}
use sin.Items.Paths.{AreLayers, path, not_end, insert_layers-Walked}
use sin.Items.Put.{coded, stale, put_code-Coded}
use sin.Items.Valid.{IsLive, edge, IsStore, HasRoom, child_of-edge}
use sin.Items.Walk.{
  find_item, insert_item, put_value, free_bytecode, insert_code_item, put_code, measure_by, Write,
  insert_layers,
}
use sin.Items.{code_item, Item, Store, load, save}
use sin.Outcome.{Outcome, ok, undefined}
use sin.Prelude.{
  ℕ, suc, ◌≡◌, ◌≤◌, ◌⊎◌, inl, inr, refl, ap, ◌∙◌, sym, false, Option, none, some, List, [], ◌∷◌,
  length, Bytes, arith, Option-cases,
}
use sin.Value.{Value}

-- The result of `insert_code_item`: an item with the code, or undefined, where the old value is
-- the empty string or the old code was freed.
pub data CodeInserted (bytecode : Bytes) (st : Store) (root : ℕ) (name : Bytes)
    (result : Outcome (Option ℕ × Store)) : Type 0 where
  code_inserted :
      (i : ℕ) (item : Item) (st' : Store)
      → Found st root name i item st'
      → result ≡ ok (some i, st')
      → (item.type ≡ code_item)
        × (item.bytecode ≡ some bytecode)
        × (item.bytecode_len ≡ length bytecode)
      → CodeInserted bytecode st root name result
  code_faulty :
      (i : ℕ) (item : Item) (st' : Store)
      → Found st root name i item st'
      → result ≡ undefined
      → (measure_by item.type item.value ≡ undefined)
        ⊎ (free_bytecode item.bytecode_len item.bytecode ≡ undefined)
      → CodeInserted bytecode st root name result

-- Where every layer has one to 32 characters and every item has room for as many more children as
-- there are layers, `insert_code_item` gives a code item that `find_item` finds under the name and
-- that has the bytecode and its length, save where it faults.
pub insert_code_item-CodeInserted :
    (st : Store) (root : ℕ) (name bytecode : Bytes)
    → IsStore st
    → IsLive st root
    → AreLayers (split_name name)
    → HasRoom st (length (split_name name))
    → CodeInserted bytecode st root name (insert_code_item st root name bytecode)
unfolding insert_code_item
insert_code_item-CodeInserted st root name bytecode v live h room =
    let w =
      insert_layers-Walked (put_code bytecode) st root (split_name name) v live room h
        (split_name-nonempty name) in
    let (item, at) = w.live in
    let found =
      find_item-path w.grown root name w.store (w.grows.lives root live) h ∙ ap ok w.ends in
    let there : Found st root name w.target item w.grown = record {
      store = w.store;
      grows = w.grows;
      found = found;
      at = at;
    } in
    elim (put_code-Coded bytecode w.grown w.target item at) [
      | coded item' e same (t, b, l, _) ↦
          code_inserted w.target item' (save w.grown w.target item')
            (Found-save st w.grown root name w.target item item' live h there same) (w.runs ∙ e)
            (t, b, l)
      | stale e u ↦ code_faulty w.target item w.grown there (w.runs ∙ e) u
    ]

-- Along a path that is there, nothing is made.
insert_layers-path :
    (write : Write) (st : Store) (i j : ℕ) (ls : List Bytes)
    → IsStore st
    → IsLive st i
    → AreLayers ls
    → 1 ≤ length ls
    → path st (some i) ls ≡ some j
    → insert_layers write st i ls ≡ write st j
unfolding insert_layers
insert_layers-path write st i j [] v live h nonempty e = absurd (omega arith)
insert_layers-path write st i j (l ∷ []) v live (some_char, short, h) nonempty e =
    let e' : edge st i l ≡ some j = e in
    rw (not_end l [] some_char, copy_layer-short l short, child_of-edge st i l v live, e') refl
insert_layers-path write st i j (l ∷ l' ∷ ls) v live (some_char, short, h) nonempty e =
    let e1 : path st (edge st i l) (l' ∷ ls) ≡ some j = e in
    elim (Option-cases (edge st i l)) [
      | inl n ↦ absurd (
          let e' : path st none (l' ∷ ls) ≡ some j = ap (λ o. path st o (l' ∷ ls)) (sym n) ∙ e1 in
          cc)
      | inr (c, m) ↦
          rw
            (
              not_end l (l' ∷ ls) some_char,
              copy_layer-short l short,
              child_of-edge st i l v live,
              m,
            )
            (insert_layers-path write st c j (l' ∷ ls) v (v.closed i l c m) h (omega arith)
              (ap (λ o. path st o (l' ∷ ls)) (sym m) ∙ e1))
    ]

-- `insert_item` over a code item that is not running frees the bytecode and leaves the item code,
-- of the old length.
pub insert_item-dangling :
    (st : Store) (root : ℕ) (name : Bytes) (value : Value) (i n : ℕ) (item : Item) (b : Bytes)
    → IsStore st
    → IsLive st root
    → AreLayers (split_name name)
    → find_item st root name ≡ ok (some i)
    → st.items i ≡ some item
    → item.type ≡ code_item
    → item.inuse ≡ false
    → item.bytecode_len ≡ suc n
    → item.bytecode ≡ some b
    → (st' : Store) × (item' : Item) × (insert_item st root name value ≡ ok (some i, st'))
      × (st'.items i ≡ some item')
      × (item'.type ≡ code_item)
      × (item'.bytecode_len ≡ suc n)
      × (item'.bytecode ≡ none)
unfolding insert_item put_value load
insert_item-dangling st root name value i n item b v live h found at code idle len held =
    let q = find_item-path st root name v live h in
    let there : path st (some root) (split_name name) ≡ some i = cc in
    let item' : Item = record item { value = value; bytecode = none } in
    (
      save st i item',
      item',
      insert_layers-path (put_value value) st root i (split_name name) v live h
            (split_name-nonempty name) there
          ∙ rw (at, code, idle, len, held) refl,
      ground arith,
      code,
      len,
      refl,
    )
