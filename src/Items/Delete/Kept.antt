-- ===== src/Items/Delete/Kept.antt =====
-- `insert_item` and `insert_code_item` (src/item.c) keep the store one that `delete_item` can free.
use native.Mathlib.Decide.{ℕ_discrete}
use sin.HashTable.Writes.{IsHashTable, view}
use sin.Items.Delete.Removal.{IsOwned, KeepsCode}
use sin.Items.Delete.Owned.{make_read-IsOwned}
use sin.Items.Delete.Walks.{Keeps, insert_layers-Keeps}
use sin.Items.File.{plain, make_read}
use sin.Items.Names.{split_name}
use sin.Items.Paths.{AreLayers}
use sin.Items.Put.{put, running, overread, double_free, put_value-Put, coded, stale, put_code-Coded}
use sin.Items.Save.{SameLinks, items-save_same, items-save_other, edge-save}
use sin.Items.Valid.{IsLive, edge, IsStore, HasRoom}
use sin.Items.Walk.{or_make, put_value, put_code, insert_item, insert_code_item}
use sin.Items.{value_item, Item, Store, save}
use sin.Outcome.{ok, Returns}
use sin.Prelude.{
  ℕ, suc, ◌≤◌, ◌≡◌, refl, ap, ◌∙◌, sym, Option, none, some, length, Bytes, arith, Option-cases, inl,
  inr,
}
use sin.Value.{Value, value_nil}

-- A write that leaves name, parent and children of an item as they were.
module _ (st : Store) (i : ℕ) (item item' : Item) (at : st.items i ≡ some item)
    (same : SameLinks item' item) where
  -- What holds of the item that was written and of all the others holds after the write.
  pub every :
      (P : ℕ → Item → Type 0)
      → P i item'
      → ((j : ℕ) (it : Item) → st.items j ≡ some it → P j it)
      → (j : ℕ) (it : Item) → (save st i item').items j ≡ some it
      → P j it
  every P written others j it q = elim (ℕ_discrete i j) [
    | yes e ↦
        (let q' : (save st i item').items i ≡ some it = rw (← e) at q in
          let eq : item' ≡ it = (let s = items-save_same st i item item' at same in cc) in
          rw (← eq, ← e) written)
    | no ne ↦ others j it (sym (items-save_other st i item item' at same j ne) ∙ q)
  ]

  save-IsOwned : IsOwned st → KeepsCode item' → IsOwned (save st i item')
  save-IsOwned o code = record {
    forest = record {
      parents = λ j c k it e q.
          every (λ c it. edge st j k ≡ some c → (it.parent ≡ some j) × (it.name ≡ k))
            (λ e'.
              let h = o.forest.parents j i k item e' at in (same.parent ∙ h.0, same.name ∙ h.1))
            (λ c it q' e'. o.forest.parents j c k it e' q') c it q
            (sym (edge-save st i item item' at same j k) ∙ e);
      younger = λ j c k e. o.forest.younger j c k (sym (edge-save st i item item' at same j k) ∙ e);
    };
    fresh = λ j le. elim (ℕ_discrete i j) [
      | yes e ↦ absurd (let h = o.fresh j le in let at' : st.items j ≡ some item = rw e at at in cc)
      | no ne ↦ items-save_other st i item item' at same j ne ∙ o.fresh j le
    ];
    tables =
        every (λ j it. IsHashTable it.children) (rw (same.table) (o.tables i item at)) o.tables;
    codes = every (λ j it. KeepsCode it) code o.codes;
  }

-- One layer of a walk: the child that is there, or a new one.
or_make-IsOwned :
    (st : Store) (i : ℕ) (l : Bytes) (n : ℕ)
    → IsStore st
    → IsOwned st
    → IsLive st i
    → HasRoom st (suc n)
    → length l ≤ 32
    → Returns (or_make st i l (edge st i l)) (λ made. IsOwned made.1)
unfolding make_read
or_make-IsOwned st i l n v o (p, at) room short = elim (Option-cases (edge st i l)) [
  | inl e ↦
      (let absent : view p.children l ≡ none = rw at at e in
        let h = room i p at in
        let (made, run, (_, owned)) =
          make_read-IsOwned st i p l (plain value_nil) v o at absent (omega arith) short in
        rw e (made, run, owned))
  | inr (c, e) ↦ rw e ((c, st), refl, o)
]

put_code-Keeps : (bytecode : Bytes) → Keeps IsOwned (put_code bytecode) (λ r st'. Unit {0})
put_code-Keeps bytecode st i r st' o (item, at) e ends =
    elim (put_code-Coded bytecode st i item at) [
      | coded item' run same (t, b, n, busy) ↦
          (let eq : save st i item' ≡ st' = cc in
            rw (← eq) (save-IsOwned st i item item' at same o (λ t. (bytecode, b))))
      | stale u q ↦ absurd cc
    ]

-- What `insert_item` returns is not a code item, whose bytecode it would have freed.
abbrev EndsOnValue : Option ℕ → Store → Type 0
EndsOnValue r st =
    (i : ℕ) (item : Item) → r ≡ some i → st.items i ≡ some item → item.type ≡ value_item

put_value-Keeps : (value : Value) → Keeps IsOwned (put_value value) EndsOnValue
put_value-Keeps value st i r st' o (item, at) e ends = elim (put_value-Put value st i item at) [
  | put item' run same q t ↦
      (let eq : save st i item' ≡ st' = cc in
        let there : st'.items i ≡ some item' =
          ap (λ s. s.items i) (sym eq) ∙ items-save_same st i item item' at same in
        let returned : r ≡ some i = cc in
        let no_code : item'.type ≡ value_item = ends i item' returned there in
        rw (← eq) (save-IsOwned st i item item' at same o (λ t. absurd cc)))
  | running run t busy ↦ (let eq : st ≡ st' = cc in rw (← eq) o)
  | overread run t u ↦ absurd cc
  | double_free run t u ↦ absurd cc
]

-- Along layers that fit, with room for the items that are made, `insert_code_item` keeps a store one
-- whose items `delete_item` can free one by one: each child is owned by one parent, under the name
-- that it has, and each code item has its bytecode.
pub insert_code_item-IsOwned :
    (st st' : Store) (root : ℕ) (name bytecode : Bytes) (r : Option ℕ)
    → IsStore st
    → IsOwned st
    → IsLive st root
    → AreLayers (split_name name)
    → HasRoom st (length (split_name name))
    → insert_code_item st root name bytecode ≡ ok (r, st')
    → IsOwned st'
unfolding insert_code_item
insert_code_item-IsOwned st st' root name bytecode r v o live h room e =
    insert_layers-Keeps IsOwned (put_code bytecode) (λ r st'. Unit {0}) st root (split_name name) r
      st' or_make-IsOwned (put_code-Keeps bytecode) v o live room h e tt

-- Along layers that fit, with room for the items that are made, `insert_item` keeps a store one whose
-- items `delete_item` can free one by one, with the parent and the name of each child as its table has
-- them, where what it returns is not a code item, whose bytecode it has freed.
pub insert_item-IsOwned :
    (st st' : Store) (root : ℕ) (name : Bytes) (value : Value) (r : Option ℕ)
    → IsStore st
    → IsOwned st
    → IsLive st root
    → AreLayers (split_name name)
    → HasRoom st (length (split_name name))
    → insert_item st root name value ≡ ok (r, st')
    → ((i : ℕ) (item : Item) → r ≡ some i → st'.items i ≡ some item → item.type ≡ value_item)
    → IsOwned st'
unfolding insert_item
insert_item-IsOwned st st' root name value r v o live h room e ends =
    insert_layers-Keeps IsOwned (put_value value) EndsOnValue st root (split_name name) r st'
      or_make-IsOwned (put_value-Keeps value) v o live room h e ends
