-- ===== src/Items/Make.antt =====
-- `make_item` (src/item.c) adds one child to a well-formed store.
use native.Mathlib.Decide.{ℕ_discrete}
use sin.HashTable.Map.{create_hashtable-Models}
use sin.HashTable.Writes.{view}
use sin.Items.Names.{copy_layer}
use sin.Items.Valid.{IsLive, edge, IsItem, IsStore, Grows, HasRoom, Adopted, adopt-Adopted}
use sin.Items.{value_item, Item, Store, load, save, new_item, adopt, make_item}
use sin.Outcome.{ok, Returns}
use sin.Prelude.{
  ℕ, suc, ◌≤◌, ◌<◌, ◌≡◌, refl, ◌∙◌, sym, Option, none, some, [], length, Bytes, str_eq, str_eq_refl,
  str_eq→eq, arith, Bool-cases, inl, inr,
}
use sin.Value.{Value}

pub new_item-IsItem :
    (name : Bytes) (parent : Option ℕ) (v : Value) → IsItem (new_item name parent v)
unfolding new_item
new_item-IsItem name parent v = record {
  table = (create_hashtable-Models {A = ℕ} 16 (omega arith)).0;
  by_ten = refl;
  bounded = omega arith;
  fits = omega arith;
}

pub new_item-view :
    (name : Bytes) (parent : Option ℕ) (v : Value) (k : Bytes)
    → view (new_item name parent v).children k ≡ none
unfolding new_item
new_item-view name parent v k = (create_hashtable-Models {A = ℕ} 16 (omega arith)).1 k

pub new_item-size :
    (name : Bytes) (parent : Option ℕ) (v : Value)
    → length (new_item name parent v).ordered_array ≡ 0
unfolding new_item
new_item-size name parent v = refl

-- The store with a new item `c`, the child of item `i` at `name`.
pub record Made (st : Store) (i : ℕ) (name : Bytes) (n c : ℕ) (st' : Store) : Type 0 where
  pub store : IsStore st'
  pub grows : Grows st st'
  pub placed : edge st' i name ≡ some c
  pub live : IsLive st' c
  pub room : HasRoom st' n

-- The two writes of `make_item`, on the store's items alone.
module _ (st : Store) (i : ℕ) (name : Bytes) (n : ℕ) (v : IsStore st) (p p' new : Item)
    (at : st.items i ≡ some p) (a : Adopted p name st.next p') (fresh : IsItem new)
    (childless : (k : Bytes) → view new.children k ≡ none)
    (absent : view p.children name ≡ none) where
  unfoldable pub after : Store
  after = save (save (record st { next = suc st.next }) st.next new) i p'

  pub parent-lt : i < st.next
  parent-lt = ground (arith, v.fresh i)

  pub data Place (j : ℕ) : Type 0 where
    parent : j ≡ i → after.items j ≡ some p' → Place j
    child : j ≡ st.next → after.items j ≡ some new → Place j
    other : after.items j ≡ st.items j → Place j

  pub place : (j : ℕ) → Place j
  unfolding after
  place j = elim (ℕ_discrete i j) [
    | yes e ↦ parent (sym e) (ground arith)
    | no ne ↦ elim (ℕ_discrete st.next j) [
      | yes e ↦ child (sym e) (ground arith)
      | no ne' ↦ other (ground arith)
    ]
  ]

  reads-new : (k : Bytes) (c : ℕ) → view p.children k ≡ some c → view p'.children k ≡ some c
  reads-new k c e = ground (arith, a.reads k, str_eq→eq name k)

  after-IsLive : (j : ℕ) → IsLive st j → IsLive after j
  after-IsLive j (item, e) = elim (place j) [
    | parent _ q ↦ (p', q)
    | child _ q ↦ (new, q)
    | other q ↦ (item, q ∙ e)
  ]

  child-IsLive : IsLive after st.next
  unfolding after
  child-IsLive = (new, let lt = parent-lt in ground arith)

  pub next-after : after.next ≡ suc st.next
  unfolding after
  next-after = refl

  after-Grows : Grows st after
  after-Grows = record {
    edges = λ j k c e. elim (place j) [
      | parent same q ↦ rw q (reads-new k c (rw (same, at) at e))
      | child same q ↦ absurd (
          let h = v.fresh st.next (omega arith) in let e' : none ≡ some c = rw (same, h) at e in cc)
      | other q ↦ rw q e
    ];
    lives = after-IsLive;
  }

  from_parent : (k : Bytes) (c : ℕ) → view p'.children k ≡ some c → IsLive after c
  from_parent k c e = elim (Bool-cases (str_eq name k)) [
    | inl same ↦ (let e' : c ≡ st.next = ground (arith, a.reads k) in rw e' child-IsLive)
    | inr ne ↦ after-IsLive c (v.closed i k c (rw at (ground (arith, a.reads k))))
  ]

  after-closed : (j : ℕ) (k : Bytes) (c : ℕ) → edge after j k ≡ some c → IsLive after c
  after-closed j k c e = elim (place j) [
    | parent same q ↦ from_parent k c (rw q at e)
    | child same q ↦
        absurd (let e' : view new.children k ≡ some c = rw q at e in let h = childless k in cc)
    | other q ↦ after-IsLive c (v.closed j k c (rw q at e))
  ]

  pub after-IsStore : IsStore after
  after-IsStore = record {
    fresh = λ j le. elim (place j) [
      | parent e q ↦ absurd (omega (arith, parent-lt, next-after))
      | child e q ↦ absurd (omega (arith, next-after))
      | other q ↦ q ∙ v.fresh j (omega (arith, next-after))
    ];
    sound = λ j item e. elim (place j) [
      | parent _ q ↦ (let same : p' ≡ item = cc in rw (← same) a.item)
      | child _ q ↦ (let same : new ≡ item = cc in rw (← same) fresh)
      | other q ↦ v.sound j item (sym q ∙ e)
    ];
    closed = after-closed;
  }

  after-room : HasRoom st (suc n) → length new.ordered_array ≡ 0 → HasRoom after n
  after-room room empty j item e = elim (place j) [
    | parent _ q ↦
        (let same : p' ≡ item = cc in rw (← same) (let h = room i p at in omega (arith, a.size)))
    | child _ q ↦
        (let same : new ≡ item = cc in rw (← same) (let h = room i p at in omega (arith, empty)))
    | other q ↦ (let h = room j item (sym q ∙ e) in omega arith)
  ]

pub copy_layer-short : (layer : Bytes) → length layer ≤ 32 → copy_layer layer ≡ ok layer
unfolding copy_layer
copy_layer-short layer h = ground arith

pub make_item-run :
    (st : Store) (i : ℕ) (name : Bytes) (value : Value) (p p' : Item)
    → length name ≤ 32
    → (save (record st { next = suc st.next }) st.next (new_item name (some i) value)).items i
      ≡ some p
    → adopt p name st.next ≡ ok p'
    → make_item st name i value_item value []
      ≡ ok (
        st.next,
        save (save (record st { next = suc st.next }) st.next (new_item name (some i) value)) i p',
      )
unfolding make_item load
make_item-run st i name value p p' short got e = rw (copy_layer-short name short, got, e) refl

-- A child that is missing is made at a new number, in the store and in the parent's table.
pub make_item-Made :
    (st : Store) (i : ℕ) (name : Bytes) (n : ℕ) (value : Value)
    → IsStore st
    → IsLive st i
    → edge st i name ≡ none
    → HasRoom st (suc n)
    → length name ≤ 32
    → Returns (make_item st name i value_item value []) (λ made. Made st i name n made.0 made.1)
unfolding after
make_item-Made st i name n value v (p, at) none_there room short =
    let new = new_item name (some i) value in
    let childless = new_item-view name (some i) value in
    let fresh = new_item-IsItem name (some i) value in
    let absent : view p.children name ≡ none = rw at at none_there in
    let h = room i p at in
    let (p', e, a) = adopt-Adopted p name st.next (v.sound i p at) absent (omega arith) in
    let lt = parent-lt st i name n v p p' new at a fresh childless absent in
    let edge-child : edge (after st i name n v p p' new at a fresh childless absent) i name
        ≡ some st.next =
      ground (arith, a.reads name, str_eq_refl name) in
    let st1 = save (record st { next = suc st.next }) st.next new in
    let got : st1.items i ≡ some p = ground arith in
    (
      (st.next, after st i name n v p p' new at a fresh childless absent),
      make_item-run st i name value p p' short got e,
      record {
        store = after-IsStore st i name n v p p' new at a fresh childless absent;
        grows = after-Grows st i name n v p p' new at a fresh childless absent;
        placed = edge-child;
        live = child-IsLive st i name n v p p' new at a fresh childless absent;
        room =
            after-room st i name n v p p' new at a fresh childless absent room
              (new_item-size name (some i) value);
      },
    )
