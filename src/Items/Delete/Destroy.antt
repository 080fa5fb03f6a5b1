-- ===== src/Items/Delete/Destroy.antt =====
-- `destroy_item` (src/item.c) frees an item and all below it, once, and nothing else.
use mathlib.Core.List.{flatten}
use native.Mathlib.Decide.{ℕ_discrete}
use sin.HashTable.Entries.{count}
use sin.HashTable.Writes.{view}
use sin.HashTable.{Chain}
use sin.Items.Delete.Below.{
  Below, below_self, IsForest, Below-le, IsWhole, siblings_apart, Shrinks, Shrinks-Below,
  Below-kept,
}
use sin.Items.Delete.{destroy_entries, forget, destroy_item}
use sin.Items.Valid.{edge}
use sin.Items.{Item, Store, load}
use sin.Outcome.{Returns}
use sin.Prelude.{
  false, true, ℕ, zero, suc, ◌+◌, ◌≤◌, ◌≡◌, ◌≢◌, refl, ◌∙◌, ◌⊎◌, inl, inr, some, [], ◌∷◌, Bytes,
  str_eq, str_eq_refl, arith,
}
use sin.Items.Delete.Removal.{
  IsOwned, Siblings, BelowAny, Removed, Removed-Shrinks, Shrinks-IsOwned, free_by-KeepsCode,
  Siblings-of, Below-entries, BelowAny-Below, AllWhole, all_whole, alone, before,
}

module _ (st st1 : Store) (o : IsOwned st) (i a : ℕ) (k : Bytes) (edge_a : edge st i k ≡ some a)
    (whole_a : IsWhole st a) (r : Removed (Below st a) st st1) where
  other_child : (l : Bytes) (b : ℕ) → edge st i l ≡ some b → str_eq l k ≡ false → a ≢ b
  other_child l b e ne same =
      let (item, at) = whole_a a below_self in
      let q = (o.forest.parents i a k item edge_a at).1 in
      let q' = (o.forest.parents i a l item (rw same e) at).1 in
      let h = str_eq_refl k in let z : str_eq l k ≡ true = rw (← q', q) h in absurd cc

  -- Nothing below the others is below the one that has gone.
  apart :
      (es : Chain ℕ) (j : ℕ)
      → Siblings st i es
      → count k es ≡ 0
      → AllWhole st es
      → BelowAny st es j
      → Below st a j
      → ⊥
  unfolding count
  apart [] j s n w b b' = b
  apart (e ∷ es) j (before x m s) n (w, ws) (inl b) b' =
      siblings_apart i k e.key o.forest whole_a w edge_a x
        (other_child e.key e.child x (ground arith)) b' b
  apart (e ∷ es) j (before x m s) n (w, ws) (inr b) b' = apart es j s (omega arith) ws b b'

  parent_kept : st1.items i ≡ st.items i
  parent_kept =
      r.kept i
        (λ b. let le = Below-le o.forest b in let lt = o.forest.younger i a k edge_a in omega arith)

  Siblings-kept : (es : Chain ℕ) → Siblings st i es → Siblings st1 i es
  Siblings-kept [] alone = alone
  Siblings-kept (e ∷ es) (before x m s) = before (rw parent_kept x) m (Siblings-kept es s)

  AllWhole-kept :
      (es : Chain ℕ) → Siblings st i es → count k es ≡ 0 → AllWhole st es → AllWhole st1 es
  unfolding count
  AllWhole-kept [] s n w = tt
  AllWhole-kept (e ∷ es) (before x m s) n (w, ws) = (
    λ j b.
        let b' = Shrinks-Below (Removed-Shrinks r) b in
        let (item, at) = w j b' in
        (item, r.kept j (apart (e ∷ es) j (before x m s) n (w, ws) (inl b')) ∙ at),
    AllWhole-kept es s (omega arith) ws,
  )

  BelowAny-kept :
      (es : Chain ℕ) (j : ℕ)
      → Siblings st i es
      → count k es ≡ 0
      → AllWhole st es
      → BelowAny st es j
      → BelowAny st1 es j
  unfolding count
  BelowAny-kept [] j s n w b = b
  BelowAny-kept (e ∷ es) j (before x m s) n (w, ws) (inl b) =
      inl (Below-kept (λ y c. r.kept y (apart (e ∷ es) y (before x m s) n (w, ws) (inl c))) b)
  BelowAny-kept (e ∷ es) j (before x m s) n (w, ws) (inr b) =
      inr (BelowAny-kept es j s (omega arith) ws b)

Shrinks-BelowAny :
    (st st' : Store) (es : Chain ℕ) (j : ℕ) → Shrinks st st' → BelowAny st' es j → BelowAny st es j
Shrinks-BelowAny st st' [] j s b = b
Shrinks-BelowAny st st' (e ∷ es) j s (inl b) = inl (Shrinks-Below s b)
Shrinks-BelowAny st st' (e ∷ es) j s (inr b) = inr (Shrinks-BelowAny st st' es j s b)

-- What goes in one step, and then in another.
Removed-both :
    {S T T' : ℕ → Type 0} {st st1 st2 : Store}
    → Removed S st st1
    → Removed T' st1 st2
    → ((j : ℕ) → T j → T' j)
    → ((j : ℕ) → T' j → T j)
    → Removed (λ j. S j ⊎ T j) st st2
Removed-both {S} {T} {T'} {st} {st1} {st2} r q there back = record {
  next = q.next ∙ r.next;
  gone = λ j b. elim b [
    | inl x ↦ elim (Removed-Shrinks q j) [ inl e ↦ e | inr e ↦ e ∙ r.gone j x ]
    | inr y ↦ q.gone j (there j y)
  ];
  kept = λ j n. q.kept j (λ y. n (inr (back j y))) ∙ r.kept j (λ x. n (inl x));
  either = λ j. elim (q.either j) [
    | inl t ↦ inl (inr (back j t))
    | inr e ↦ elim (r.either j) [ inl x ↦ inl (inl x) | inr e' ↦ inr (e ∙ e') ]
  ];
}

-- The calls for the entries of a chain, one after another.
abbrev Frees : ℕ → Type 0
Frees fuel =
    (c : ℕ) (st : Store)
    → IsOwned st
    → IsWhole st c
    → st.next ≤ fuel + c
    → Returns (destroy_item fuel c st) (Removed (Below st c) st)

destroy_entries-Removed :
    (fuel i : ℕ) (es : Chain ℕ) (st : Store)
    → Frees fuel
    → IsOwned st
    → Siblings st i es
    → AllWhole st es
    → st.next ≤ suc fuel + i
    → Returns (destroy_entries (destroy_item fuel) es st) (Removed (BelowAny st es) st)
unfolding destroy_entries
destroy_entries-Removed fuel i [] st frees o s w le = (
  st,
  refl,
  record { next = refl; gone = λ j b. absurd b; kept = λ j n. refl; either = λ j. inr refl },
)
destroy_entries-Removed fuel i (e ∷ es) st frees o (before x n s) (w, ws) le =
    let young = o.forest.younger i e.child e.key x in
    let (st1, run1, r1) = frees e.child st o w (omega arith) in
    let o1 = Shrinks-IsOwned o (Removed-Shrinks r1) r1.next in
    let s1 = Siblings-kept st st1 o i e.child e.key x w r1 es s in
    let w1 = AllWhole-kept st st1 o i e.child e.key x w r1 es s n ws in
    let next1 = r1.next in
    let (st2, run2, r2) = destroy_entries-Removed fuel i es st1 frees o1 s1 w1 (omega arith) in
    (
      st2,
      rw run1 run2,
      Removed-both r1 r2 (λ j b. BelowAny-kept st st1 o i e.child e.key x w r1 es j s n ws b)
          (λ j b. Shrinks-BelowAny st st1 es j (Removed-Shrinks r1) b),
    )

-- Freeing an item after all below it.
forget-Removed :
    {st st1 : Store} {i : ℕ} (item : Item)
    → IsForest st
    → st.items i ≡ some item
    → Siblings st i (flatten item.children.table)
    → Removed (BelowAny st (flatten item.children.table)) st st1
    → Removed (Below st i) st (forget st1 i)
forget-Removed {st} {st1} {i} item f at s r = record {
  next = r.next;
  gone = λ j b. elim (Below-entries item j at b) [
    | inl same ↦ ground arith
    | inr any ↦ (let h = r.gone j any in ground arith)
  ];
  kept = λ j n.
      let ne : i ≢ j = λ e. n (rw e below_self) in
      let h = r.kept j (λ any. n (BelowAny-Below (flatten item.children.table) j s any)) in
      ground arith;
  either = λ j. elim (ℕ_discrete i j) [
    | yes e ↦ inl (rw e below_self)
    | no ne ↦ elim (r.either j) [
      | inl any ↦ inl (BelowAny-Below (flatten item.children.table) j s any)
      | inr q ↦ inr (ground arith)
    ]
  ];
}

-- Where the store is a forest and all below the item is live, the call returns, and has freed just
-- the item and what is below it.
pub destroy_item-Removed :
    (fuel i : ℕ) (st : Store)
    → IsOwned st
    → IsWhole st i
    → st.next ≤ fuel + i
    → Returns (destroy_item fuel i st) (Removed (Below st i) st)
unfolding destroy_item load view
destroy_item-Removed zero i st o w le =
    let (item, at) = w i below_self in absurd (let h = o.fresh i (omega arith) in cc)
destroy_item-Removed (suc fuel) i st o w le =
    let (item, at) = w i below_self in
    let es = flatten item.children.table in
    let s = Siblings-of st i es (o.tables i item at).unique (λ k c e. rw at e) in
    let (st1, run, r) =
      destroy_entries-Removed fuel i es st (λ c cur. destroy_item-Removed fuel c cur) o s
        (all_whole es s w) le in
    (
      forget st1 i,
      rw (at, free_by-KeepsCode item (o.codes i item at), run) refl,
      forget-Removed item o.forest at s r,
    )
