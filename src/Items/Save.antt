-- ===== src/Items/Save.antt =====
-- Writes to an item of src/item.c that leave its children alone.
use native.Mathlib.Decide.{ℕ_discrete}
use sin.Items.Valid.{IsLive, edge, IsItem, IsStore, Grows}
use sin.Items.{Item, Store, save}
use sin.Prelude.{ℕ, ◌≡◌, ◌≢◌, refl, ap, ◌∙◌, sym, some, Bytes, arith}
use sin.HashTable.Writes.{view}

-- The name, the parent and the children of an item.
pub record SameLinks (a b : Item) : Type 0 where
  pub name : a.name ≡ b.name
  pub parent : a.parent ≡ b.parent
  pub table : a.children ≡ b.children
  pub array : a.ordered_array ≡ b.ordered_array
  pub capacity : a.ordered_capacity ≡ b.ordered_capacity

some_inj : {a b : Item} → some a ≡ some b → a ≡ b
some_inj e = cc

module _ (st : Store) (i : ℕ) (item item' : Item) (at : st.items i ≡ some item)
    (same : SameLinks item' item) where
  pub items-save_same : (save st i item').items i ≡ some item'
  items-save_same = ground arith

  pub items-save_other : (j : ℕ) → i ≢ j → (save st i item').items j ≡ st.items j
  items-save_other j ne = ground arith

  pub edge-save : (j : ℕ) (k : Bytes) → edge (save st i item') j k ≡ edge st j k
  edge-save j k = elim (ℕ_discrete i j) [
    | yes e ↦ rw (← e, items-save_same, at) (ap (λ t. view t k) same.table)
    | no ne ↦ rw (items-save_other j ne) refl
  ]

  save-IsLive : (j : ℕ) → IsLive st j → IsLive (save st i item') j
  save-IsLive j (old, q) = elim (ℕ_discrete i j) [
    | yes e ↦ (item', rw (← e) items-save_same)
    | no ne ↦ (old, items-save_other j ne ∙ q)
  ]

  pub save-Grows : Grows st (save st i item')
  save-Grows = record { edges = λ j k c e. edge-save j k ∙ e; lives = save-IsLive }

  save-IsItem : IsItem item → IsItem item'
  save-IsItem v = record {
    table = rw (same.table) v.table;
    by_ten = rw (same.capacity) v.by_ten;
    bounded = rw (same.capacity) v.bounded;
    fits = rw (same.capacity, same.array) v.fits;
  }

  pub save-IsStore : IsStore st → IsStore (save st i item')
  save-IsStore v = record {
    fresh = λ j le. elim (ℕ_discrete i j) [
      | yes e ↦ absurd (let h = v.fresh j le in let at' : st.items j ≡ some item = rw e at at in cc)
      | no ne ↦ items-save_other j ne ∙ v.fresh j le
    ];
    sound = λ j old q. elim (ℕ_discrete i j) [
      | yes e ↦
          (let q' : (save st i item').items i ≡ some old = rw (← e) at q in
            let eq : item' ≡ old = some_inj (sym items-save_same ∙ q') in
            rw (← eq) (save-IsItem (v.sound i item at)))
      | no ne ↦ v.sound j old (sym (items-save_other j ne) ∙ q)
    ];
    closed = λ j k c e. save-IsLive c (v.closed j k c (sym (edge-save j k) ∙ e));
  }
