-- ===== src/Items/Delete/Owned.antt =====
-- `make_item` (src/item.c) keeps the forest that `delete_item` relies on.
use sin.HashTable.Writes.{view}
use sin.Items.Delete.Below.{IsForest}
use sin.Items.Delete.Removal.{IsOwned, KeepsCode}
use sin.Items.File.Make.{
  SameBody, adopt-SameBody, make_read-run, read_new, read_new-IsItem, read_new-view, read_new-name,
}
use sin.Items.File.{Content, plain, code, make_read}
use sin.Items.Make.{after, parent-lt, Place, parent, child, other, place, after-IsStore}
use sin.Items.Valid.{edge, IsItem, IsStore, Adopted, adopt-Adopted}
use sin.Items.{Item, Store, save, new_item}
use sin.Outcome.{Returns}
use sin.Prelude.{
  ℕ, suc, ◌≤◌, ◌<◌, ◌≡◌, refl, ◌∙◌, sym, none, some, length, Bytes, str_eq, str_eq→eq, Bool-cases,
  inl, inr, arith,
}

module _ (st : Store) (i : ℕ) (name : Bytes) (v : IsStore st) (o : IsOwned st) (p p' new : Item)
    (at : st.items i ≡ some p) (a : Adopted p name st.next p') (fresh : IsItem new)
    (childless : (k : Bytes) → view new.children k ≡ none) (absent : view p.children name ≡ none)
    (body : SameBody p' p) (named : new.name ≡ name) (up : new.parent ≡ some i)
    (code_new : KeepsCode new) where
  grown : Store
  grown = after st i name 0 v p p' new at a fresh childless absent

  -- What an old edge says of the item that it leads to, which may be the new one's parent.
  old_parents :
      (j c : ℕ) (k : Bytes) (item : Item)
      → edge st j k ≡ some c
      → grown.items c ≡ some item
      → (item.parent ≡ some j) × (item.name ≡ k)
  unfolding grown
  old_parents j c k item e q = elim (place st i name 0 v p p' new at a fresh childless absent c) [
    | parent same x ↦
        (let eq : p' ≡ item = cc in
          let h = o.forest.parents j c k p e (rw same at) in
          rw (← eq) (body.parent ∙ h.0, body.name ∙ h.1))
    | child same x ↦
        absurd (let (old, live) = v.closed j k c e in let h = v.fresh c (omega arith) in cc)
    | other x ↦ o.forest.parents j c k item e (sym x ∙ q)
  ]

  parent_edge :
      (c : ℕ) (k : Bytes) (item : Item)
      → view p'.children k ≡ some c
      → grown.items c ≡ some item
      → ((item.parent ≡ some i) × (item.name ≡ k)) × (i < c)
  unfolding grown
  parent_edge c k item e q = elim (Bool-cases (str_eq name k)) [
    | inl same ↦
        let c_new : c ≡ st.next = ground (arith, a.reads k) in
        let lt = parent-lt st i name 0 v p p' new at a fresh childless absent in
        let eq : new ≡ item = new_at c item c_new q in
        (rw (← eq) (up, named ∙ str_eq→eq name k same), omega arith)
    | inr ne ↦
        let e' : edge st i k ≡ some c = rw at (ground (arith, a.reads k)) in
        (old_parents i c k item e' q, o.forest.younger i c k e')
  ]
    where
      new_at : (c : ℕ) (item : Item) → c ≡ st.next → grown.items c ≡ some item → new ≡ item
      new_at c item c_new q = elim (place st i name 0 v p p' new at a fresh childless absent c) [
        | parent same x ↦
            absurd
              (let lt = parent-lt st i name 0 v p p' new at a fresh childless absent in omega arith)
        | child same x ↦ cc
        | other x ↦ absurd (let h = v.fresh c (omega arith) in cc)
      ]

  Place-of : (j : ℕ) → Place st i name 0 v p p' new at a fresh childless absent j
  Place-of j = place st i name 0 v p p' new at a fresh childless absent j

  grown-IsForest : IsForest grown
  unfolding grown
  grown-IsForest = record {
    parents = λ j c k item e q. elim (Place-of j) [
      | parent same x ↦ rw same (parent_edge c k item (rw x at e) q).0
      | child same x ↦
          absurd (let e' : view new.children k ≡ some c = rw x at e in let h = childless k in cc)
      | other x ↦ old_parents j c k item (rw x at e) q
    ];
    younger = λ j c k e. elim (Place-of j) [
      | parent same x ↦
          (let (item, q) =
              (after-IsStore st i name 0 v p p' new at a fresh childless absent).closed j k c e in
            rw same (parent_edge c k item (rw x at e) q).1)
      | child same x ↦
          absurd (let e' : view new.children k ≡ some c = rw x at e in let h = childless k in cc)
      | other x ↦ o.forest.younger j c k (rw x at e)
    ];
  }

  grown-IsOwned : IsOwned grown
  unfolding grown
  grown-IsOwned = record {
    forest = grown-IsForest;
    fresh = (after-IsStore st i name 0 v p p' new at a fresh childless absent).fresh;
    tables = λ j item q. elim (Place-of j) [
      | parent same x ↦ (let eq : p' ≡ item = cc in rw (← eq) (a.item.table))
      | child same x ↦ (let eq : new ≡ item = cc in rw (← eq) (fresh.table))
      | other x ↦ o.tables j item (sym x ∙ q)
    ];
    codes = λ j item q. elim (Place-of j) [
      | parent same x ↦
          (let eq : p' ≡ item = cc in
            rw (← eq)
              (λ t. let (b, z) = o.codes i p at (sym body.type ∙ t) in (b, body.bytecode ∙ z)))
      | child same x ↦ (let eq : new ≡ item = cc in rw (← eq) code_new)
      | other x ↦ o.codes j item (sym x ∙ q)
    ];
  }

read_new-parent : (name : Bytes) (i : ℕ) (c : Content) → (read_new name i c).parent ≡ some i
unfolding new_item
read_new-parent name i (plain v) = refl
read_new-parent name i (code b) = refl

read_new-KeepsCode : (name : Bytes) (i : ℕ) (c : Content) → KeepsCode (read_new name i c)
unfolding new_item
read_new-KeepsCode name i (plain v) = λ t. absurd cc
read_new-KeepsCode name i (code b) = λ t. (b, refl)

-- A new child, a value or code, of an item that has none of that name keeps the forest, the tables and
-- the bytecode as `delete_item` needs them.
pub make_read-IsOwned :
    (st : Store) (i : ℕ) (p : Item) (name : Bytes) (c : Content)
    → IsStore st
    → IsOwned st
    → st.items i ≡ some p
    → view p.children name ≡ none
    → length p.ordered_array < 250
    → length name ≤ 32
    → Returns (make_read st (some i) name c) (λ made. IsStore made.1 × IsOwned made.1)
unfolding grown after
make_read-IsOwned st i p name c v o at absent room short =
    let new = read_new name i c in
    let childless = read_new-view name i c in
    let fresh = read_new-IsItem name i c in
    let (p', e, a) = adopt-Adopted p name st.next (v.sound i p at) absent room in
    let lt = parent-lt st i name 0 v p p' new at a fresh childless absent in
    let st1 = save (record st { next = suc st.next }) st.next new in
    let got : st1.items i ≡ some p = ground arith in
    (
      (st.next, after st i name 0 v p p' new at a fresh childless absent),
      make_read-run st i name c p p' short got e,
      (
        after-IsStore st i name 0 v p p' new at a fresh childless absent,
        grown-IsOwned st i name v o p p' new at a fresh childless absent
            (adopt-SameBody p name st.next p' e) (read_new-name name i c) (read_new-parent name i c)
            (read_new-KeepsCode name i c),
      ),
    )
