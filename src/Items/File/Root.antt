-- ===== src/Items/File/Root.antt =====
-- What `make_root_item` (src/item.c) leaves as it was, for the reader of a file.
use sin.Items.File.Make.{IsNew}
use native.Mathlib.Decide.{ℕ_discrete}
use sin.HashTable.Writes.{view}
use sin.Items.File.Contents.{HasContent}
use sin.Items.File.{Content, plain, make_read}
use sin.Items.Make.{new_item-IsItem, new_item-view, new_item-size, copy_layer-short}
use sin.Items.Valid.{IsLive, IsItem, IsStore}
use sin.Items.{Item, Store, save, new_item, make_root_item}
use sin.Outcome.{ok, Returns}
use sin.Prelude.{ℕ, suc, ◌≤◌, ◌≡◌, refl, ◌∙◌, sym, none, some, length, Bytes, arith}
use sin.Value.{value_zero}

new_root-name : (name : Bytes) → (new_item name none value_zero).name ≡ name
unfolding new_item
new_root-name name = refl

new_root-HasContent : (name : Bytes) → HasContent (new_item name none value_zero) (plain value_zero)
unfolding new_item
new_root-HasContent name = (refl, refl)

-- A store with one more item, which has no parent and no children.
module _ (st : Store) (v : IsStore st) (new : Item) (fresh : IsItem new)
    (childless : (k : Bytes) → view new.children k ≡ none) where
  rooted : Store
  rooted = save (record st { next = suc st.next }) st.next new

  data RootPlace (j : ℕ) : Type 0 where
    root : j ≡ st.next → rooted.items j ≡ some new → RootPlace j
    old : rooted.items j ≡ st.items j → RootPlace j

  root_place : (j : ℕ) → RootPlace j
  unfolding rooted
  root_place j = elim (ℕ_discrete st.next j) [
    | yes e ↦ root (sym e) (ground arith)
    | no ne ↦ old (ground arith)
  ]

  next-rooted : rooted.next ≡ suc st.next
  unfolding rooted
  next-rooted = refl

  rooted-IsLive : (j : ℕ) → IsLive st j → IsLive rooted j
  rooted-IsLive j (item, e) = elim (root_place j) [ root _ q ↦ (new, q) | old q ↦ (item, q ∙ e) ]

  rooted-IsStore : IsStore rooted
  rooted-IsStore = record {
    fresh = λ j le. elim (root_place j) [
      | root e q ↦ absurd (omega (arith, next-rooted))
      | old q ↦ q ∙ v.fresh j (omega (arith, next-rooted))
    ];
    sound = λ j item e. elim (root_place j) [
      | root _ q ↦ (let same : new ≡ item = cc in rw (← same) fresh)
      | old q ↦ v.sound j item (sym q ∙ e)
    ];
    closed = λ j k c e. elim (root_place j) [
      | root _ q ↦
          absurd (let e' : view new.children k ≡ some c = rw q at e in let h = childless k in cc)
      | old q ↦ rooted-IsLive c (v.closed j k c (rw q at e))
    ];
  }

make_root-run :
    (st : Store) (name : Bytes) (c : Content)
    → length name ≤ 32
    → make_read st none name c
      ≡ ok
          (st.next, save (record st { next = suc st.next }) st.next (new_item name none value_zero))
unfolding make_read make_root_item
make_root-run st name c short = rw (copy_layer-short name short) refl

-- The root takes the next number, and its value is 0.
pub make_root-Rooted :
    (st : Store) (name : Bytes) (c : Content)
    → IsStore st
    → length name ≤ 32
    → Returns (make_read st none name c) (λ made.
      (made.0 ≡ st.next)
      × IsStore made.1
      × (made.1.next ≡ suc st.next)
      × IsNew made.1 name (plain value_zero) st.next)
unfolding rooted
make_root-Rooted st name c v short =
    let new = new_item name none value_zero in
    let childless = new_item-view name none value_zero in
    let fresh = new_item-IsItem name none value_zero in
    (
      (st.next, rooted st v new fresh childless),
      make_root-run st name c short,
      (
        refl,
        rooted-IsStore st v new fresh childless,
        refl,
        record {
          item = new;
          at = ground arith;
          named = new_root-name name;
          content = new_root-HasContent name;
          childless = childless;
          empty = new_item-size name none value_zero;
        },
      ),
    )
