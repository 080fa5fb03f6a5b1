-- ===== src/Items/Delete/Ordered.antt =====
-- `insert_item` (src/item.c) keeps the arrays of children that `delete_item` relies on.
use sin.HashTable.Writes.{view}
use sin.HashTable.{insert_hashtable, maybe_resize_hashtable}
use sin.Items.Delete.Kept.{every}
use sin.Items.Delete.Removal.{IsOrdered, count_item}
use sin.Items.Delete.Walks.{Keeps, insert_layers-Keeps}
use sin.Items.Make.{
  after, parent-lt, Place, parent, child, other, place, new_item-IsItem, new_item-view,
  make_item-run,
}
use sin.Items.Names.{split_name}
use sin.Items.Paths.{AreLayers}
use sin.Items.Put.{put, running, overread, double_free, put_value-Put}
use sin.Items.Save.{SameLinks, edge-save}
use sin.Items.Valid.{IsLive, edge, IsItem, IsStore, HasRoom, Adopted, adopt-Adopted}
use sin.Items.Walk.{or_make, put_value, insert_item}
use sin.Items.{Item, Store, save, new_item, adopt, append_ordered, resize_ordered_array}
use sin.Outcome.{ok, Returns, Returns-of_bind}
use sin.Prelude.{
  ℕ, suc, ◌+◌, ◌≤◌, ◌≡◌, refl, ap, ◌∙◌, sym, Option, none, some, List, [], ◌∷◌, ◌++◌, length, Bytes,
  str_eq_refl, str_eq→eq, ◌==◌, bit, arith, Option-cases, Bool-cases, inl, inr,
}
use sin.Value.{Value, value_nil}

count-append :
    (x : ℕ) (js ks : List ℕ) → count_item x (js ++ ks) ≡ count_item x js + count_item x ks
unfolding count_item
count-append x [] ks = omega arith
count-append x (j ∷ js) ks = omega (arith, count-append x js ks)

append_ordered-array :
    (p : Item) (c : ℕ) (p' : Item)
    → append_ordered (resize_ordered_array p) c ≡ ok p'
    → p'.ordered_array ≡ p.ordered_array ++ (c ∷ [])
unfolding append_ordered resize_ordered_array
append_ordered-array p c p' e = ground arith

adopt-array :
    (p : Item) (name : Bytes) (c : ℕ) (p' : Item)
    → adopt p name c ≡ ok p'
    → p'.ordered_array ≡ p.ordered_array ++ (c ∷ [])
unfolding adopt
adopt-array p name c p' e =
    let (t1, e1, h1) = Returns-of_bind (insert_hashtable p.children name c) _ e in
    let (t2, e2, h2) = Returns-of_bind (maybe_resize_hashtable t1) _ h1 in
    append_ordered-array (record p { children = t2 }) c p' h2

adopt-count :
    (p : Item) (name : Bytes) (c x : ℕ) (p' : Item)
    → adopt p name c ≡ ok p'
    → count_item x p'.ordered_array ≡ count_item x p.ordered_array + bit (x == c)
unfolding count_item
adopt-count p name c x p' e =
    ap (count_item x) (adopt-array p name c p' e)
    ∙ count-append x p.ordered_array (c ∷ [])
    ∙ omega arith

module _ (st : Store) (i : ℕ) (name : Bytes) (v : IsStore st) (w : IsOrdered st) (p p' new : Item)
    (at : st.items i ≡ some p) (a : Adopted p name st.next p') (fresh : IsItem new)
    (childless : (k : Bytes) → view new.children k ≡ none) (absent : view p.children name ≡ none)
    (counts : (x : ℕ)
      → count_item x p'.ordered_array ≡ count_item x p.ordered_array + bit (x == st.next))
    (empty : (x : ℕ) → count_item x new.ordered_array ≡ 0) where
  grown : Store
  grown = after st i name 0 v p p' new at a fresh childless absent

  Place-of : (j : ℕ) → Place st i name 0 v p p' new at a fresh childless absent j
  Place-of j = place st i name 0 v p p' new at a fresh childless absent j

  -- No array holds the number of the new item yet.
  unheld : count_item st.next p.ordered_array ≡ 0
  unheld = elim (Bool-cases (count_item st.next p.ordered_array == 0)) [
    | inl none_there ↦ ground arith
    | inr held ↦ absurd (
        let (k, e) = w.children i st.next p at (ground arith) in
        let (item, live) = v.closed i k st.next e in let free = v.fresh st.next (omega arith) in cc)
  ]

  -- The parent's array holds its children, the new one among them.
  parent_holds :
      (x : ℕ) → 1 ≤ count_item x p'.ordered_array → (k : Bytes) × (view p'.children k ≡ some x)
  parent_holds x held = elim (Bool-cases (x == st.next)) [
    | inl is_new ↦
        (let same : x ≡ st.next = ground arith in
          let self = str_eq_refl name in (name, ground (arith, a.reads name)))
    | inr old ↦
        (let counted = counts x in
          let (k, e) = w.children i x p at (ground arith) in
          let e' : view p.children k ≡ some x = rw at at e in
          (k, ground (arith, a.reads k, str_eq→eq name k)))
  ]

  grown-IsOrdered : IsOrdered grown
  unfolding grown
  grown-IsOrdered = record {
    children = λ j x item q held. elim (Place-of j) [
      | parent same y ↦
          (let eq : p' ≡ item = cc in
            let (k, e) = parent_holds x (rw (← eq) at held) in (k, rw y e))
      | child same y ↦ absurd (
          let eq : new ≡ item = cc in
          let held' : 1 ≤ count_item x new.ordered_array = rw (← eq) at held in
          let nothing = empty x in omega arith)
      | other y ↦ (let (k, e) = w.children j x item (sym y ∙ q) held in (k, rw y e))
    ];
    once = λ j x item q. elim (Place-of j) [
      | parent same y ↦
          (let eq : p' ≡ item = cc in
            let counted = counts x in
            let before = w.once i x p at in let nothing = unheld in rw (← eq) (ground arith))
      | child same y ↦
          (let eq : new ≡ item = cc in let nothing = empty x in rw (← eq) (omega arith))
      | other y ↦ w.once j x item (sym y ∙ q)
    ];
  }

new_item-empty :
    (name : Bytes) (i x : ℕ) (u : Value) → count_item x (new_item name (some i) u).ordered_array ≡ 0
unfolding new_item count_item
new_item-empty name i x u = refl

or_make-IsOrdered :
    (st : Store) (i : ℕ) (l : Bytes) (n : ℕ)
    → IsStore st
    → IsOrdered st
    → IsLive st i
    → HasRoom st (suc n)
    → length l ≤ 32
    → Returns (or_make st i l (edge st i l)) (λ made. IsOrdered made.1)
unfolding grown after
or_make-IsOrdered st i l n v w (p, at) room short = elim (Option-cases (edge st i l)) [
  | inl e ↦
      (let absent : view p.children l ≡ none = rw at at e in
        let h = room i p at in
        let new = new_item l (some i) value_nil in
        let (p', adopted, a) = adopt-Adopted p l st.next (v.sound i p at) absent (omega arith) in
        let fresh = new_item-IsItem l (some i) value_nil in
        let childless = new_item-view l (some i) value_nil in
        let lt = parent-lt st i l 0 v p p' new at a fresh childless absent in
        let got : (save (record st { next = suc st.next }) st.next new).items i ≡ some p =
          ground arith in
        rw e (
          (st.next, after st i l 0 v p p' new at a fresh childless absent),
          make_item-run st i l value_nil p p' short got adopted,
          grown-IsOrdered st i l v w p p' new at a fresh childless absent
              (λ x. adopt-count p l st.next x p' adopted) (λ x. new_item-empty l i x value_nil),
        ))
  | inr (c, e) ↦ rw e ((c, st), refl, w)
]

save-IsOrdered :
    (st : Store) (i : ℕ) (item item' : Item)
    → st.items i ≡ some item
    → SameLinks item' item
    → IsOrdered st
    → IsOrdered (save st i item')
save-IsOrdered st i item item' at same w = record {
  children = λ j x it q held.
      let (k, e) =
        every st i item item' at same
          (λ j it. 1 ≤ count_item x it.ordered_array → (k : Bytes) × (edge st j k ≡ some x))
          (λ m. w.children i x item at (rw (same.array) at m)) (λ j it q' m. w.children j x it q' m)
          j it q held in
      (k, edge-save st i item item' at same j k ∙ e);
  once = λ j x it q.
      every st i item item' at same (λ j it. count_item x it.ordered_array ≤ 1)
        (rw (same.array) (w.once i x item at)) (λ j it q'. w.once j x it q') j it q;
}

put_value-Keeps : (value : Value) → Keeps IsOrdered (put_value value) (λ r st'. Unit {0})
put_value-Keeps value st i r st' w (item, at) e ends = elim (put_value-Put value st i item at) [
  | put item' run same q t ↦
      (let eq : save st i item' ≡ st' = cc in rw (← eq) (save-IsOrdered st i item item' at same w))
  | running run t busy ↦ (let eq : st ≡ st' = cc in rw (← eq) w)
  | overread run t u ↦ absurd cc
  | double_free run t u ↦ absurd cc
]

-- Along layers that fit, with room for the items that are made, `insert_item` keeps the arrays of
-- children: each number in the array of an item is that of a child in its table, and stands there
-- once.
pub insert_item-IsOrdered :
    (st st' : Store) (root : ℕ) (name : Bytes) (value : Value) (r : Option ℕ)
    → IsStore st
    → IsOrdered st
    → IsLive st root
    → AreLayers (split_name name)
    → HasRoom st (length (split_name name))
    → insert_item st root name value ≡ ok (r, st')
    → IsOrdered st'
unfolding insert_item
insert_item-IsOrdered st st' root name value r v w live h room e =
    insert_layers-Keeps IsOrdered (put_value value) (λ r st'. Unit {0}) st root (split_name name) r
      st' or_make-IsOrdered (put_value-Keeps value) v w live room h e tt
