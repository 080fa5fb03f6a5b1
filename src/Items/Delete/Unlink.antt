-- ===== src/Items/Delete/Unlink.antt =====
-- Unlinking an item from its parent and freeing it, the second half of `delete_item` (src/item.c).
use native.Mathlib.Decide.{ℕ_discrete}
use sin.HashTable.Map.{delete_hashtable-Models}
use sin.HashTable.Writes.{view, update}
use sin.HashTable.{HashTable, delete_hashtable}
use sin.Items.Delete.Below.{
  Below, below_self, below_child, IsForest, Below-le, IsWhole, one_parent, Below-kept,
}
use sin.Items.Delete.Destroy.{destroy_item-Removed}
use sin.Items.Delete.Removal.{IsOwned, Removed, count_item}
use sin.Items.Delete.{remove_ordered, delete_found, destroy_item}
use sin.Items.Valid.{IsLive, edge, IsItem, IsStore}
use sin.Items.{Item, Store, load, save}
use sin.Outcome.{ok, Returns, Returns-map}
use sin.Prelude.{
  ℕ, ◌≤◌, ◌≡◌, ◌≢◌, refl, ◌∙◌, sym, ◌⊎◌, inl, inr, none, some, List, [], ◌∷◌, length, Bytes, false,
  Option-cases, arith, ◌-◌, ◌==◌, if◌then◌else◌,
}

length-remove_ordered : (i : ℕ) (js : List ℕ) → length (remove_ordered i js) ≤ length js
unfolding remove_ordered
length-remove_ordered i [] = omega arith
length-remove_ordered i (j ∷ js) = ground (arith, length-remove_ordered i js)

count-remove_ordered :
    (i x : ℕ) (js : List ℕ)
    → count_item x (remove_ordered i js) ≡ count_item x js - (if x == i then 1 else 0)
unfolding remove_ordered count_item
count-remove_ordered i x [] = ground arith
count-remove_ordered i x (j ∷ js) = ground (arith, count-remove_ordered i x js)

pub Below-IsLive : {st : Store} {i j : ℕ} → IsStore st → IsLive st i → Below st i j → IsLive st j
Below-IsLive v live below_self = live
Below-IsLive v live (below_child {j} {c} k b e) = v.closed j k c e

-- A child that is below the item is the item itself, or its parent is below it.
pub Below-last :
    {st : Store} {i j c : ℕ} (k : Bytes)
    → IsForest st
    → IsLive st c
    → edge st j k ≡ some c
    → Below st i c
    → (c ≡ i) ⊎ Below st i j
Below-last k f live e below_self = inl refl
Below-last k f live e (below_child k' b e') = inr (rw (one_parent k k' f live e e') b)

-- The store `st'` is `st` without the tree of item `i`: item `p`, its parent, no longer has it.
pub record Cut (st : Store) (p i : ℕ) (name : Bytes) (st' : Store) : Type 0 where
  pub next : st'.next ≡ st.next
  pub gone : (j : ℕ) → Below st i j → st'.items j ≡ none
  pub either : (j : ℕ) → j ≢ p → Below st i j ⊎ (st'.items j ≡ st.items j)
  pub parent : Item
  pub parent' : Item
  pub at : st.items p ≡ some parent
  pub at' : st'.items p ≡ some parent'
  pub item : IsItem parent'
  pub reads : (k : Bytes) → view parent'.children k ≡ update (view parent.children) name none k
  pub counts :
      (x : ℕ)
      → count_item x parent'.ordered_array
        ≡ count_item x parent.ordered_array - (if x == i then 1 else 0)

-- Unlinking item `i` from its parent `p`.
module _ (st : Store) (v : IsStore st) (o : IsOwned st) (p i : ℕ) (k : Bytes) (pi pi' : Item)
    (at : st.items p ≡ some pi) (e : edge st p k ≡ some i) (sound : IsItem pi')
    (reads : (q : Bytes) → view pi'.children q ≡ update (view pi.children) k none q)
    (counts : (x : ℕ)
      → count_item x pi'.ordered_array ≡ count_item x pi.ordered_array - (if x == i then 1 else 0))
    (same : (pi'.parent ≡ pi.parent)
      × (pi'.name ≡ pi.name)
      × (pi'.type ≡ pi.type)
      × (pi'.bytecode ≡ pi.bytecode)) where
  unlinked : Store
  unlinked = save st p pi'

  data At (j : ℕ) : Type 0 where
    there : j ≡ p → unlinked.items j ≡ some pi' → At j
    elsewhere : j ≢ p → unlinked.items j ≡ st.items j → At j

  At-place : (j : ℕ) → At j
  unfolding unlinked
  At-place j = elim (ℕ_discrete p j) [
    | yes q ↦ there (sym q) (ground arith)
    | no ne ↦ elsewhere (λ q. ne (sym q)) (ground arith)
  ]

  next-unlinked : unlinked.next ≡ st.next
  unfolding unlinked
  next-unlinked = refl

  unlinked-edge : (j c : ℕ) (q : Bytes) → edge unlinked j q ≡ some c → edge st j q ≡ some c
  unlinked-edge j c q e' = elim (At-place j) [
    | there s x ↦
        (let e'' : view pi'.children q ≡ some c = rw x at e' in
          rw (s, at) (ground (arith, reads q)))
    | elsewhere ne x ↦ rw x at e'
  ]

  unlinked-IsOwned : IsOwned unlinked
  unlinked-IsOwned = record {
    forest = record {
      parents = λ j c q item e' x. elim (At-place c) [
        | there s y ↦
            (let eq : pi' ≡ item = cc in
              let h = o.forest.parents j c q pi (unlinked-edge j c q e') (rw s at) in
              rw (← eq) (same.0 ∙ h.0, same.1 ∙ h.1))
        | elsewhere ne y ↦ o.forest.parents j c q item (unlinked-edge j c q e') (sym y ∙ x)
      ];
      younger = λ j c q e'. o.forest.younger j c q (unlinked-edge j c q e');
    };
    fresh = λ j le. elim (At-place j) [
      | there s y ↦ absurd (let h = o.fresh p (omega (arith, next-unlinked)) in cc)
      | elsewhere ne y ↦ y ∙ o.fresh j (omega (arith, next-unlinked))
    ];
    tables = λ j item x. elim (At-place j) [
      | there s y ↦ (let eq : pi' ≡ item = cc in rw (← eq) sound.table)
      | elsewhere ne y ↦ o.tables j item (sym y ∙ x)
    ];
    codes = λ j item x. elim (At-place j) [
      | there s y ↦
          (let eq : pi' ≡ item = cc in
            rw (← eq) (λ t. let (b, z) = o.codes p pi at (sym (same.2) ∙ t) in (b, same.3 ∙ z)))
      | elsewhere ne y ↦ o.codes j item (sym y ∙ x)
    ];
  }

  parent_above : (j : ℕ) → Below st i j → j ≢ p
  parent_above j b same =
      let le = Below-le o.forest b in let lt = o.forest.younger p i k e in omega arith

  Below-unlinked : {j : ℕ} → Below st i j → Below unlinked i j
  Below-unlinked b =
      Below-kept
        (λ x c. elim (At-place x) [ there s y ↦ absurd (parent_above x c s) | elsewhere ne y ↦ y ])
        b

  Below-linked : {j : ℕ} → Below unlinked i j → Below st i j
  Below-linked below_self = below_self
  Below-linked (below_child {j} {c} q b e') =
      below_child q (Below-linked b) (unlinked-edge j c q e')

  child-IsLive : IsLive st i
  child-IsLive = v.closed p k i e

  unlinked-IsWhole : IsWhole unlinked i
  unlinked-IsWhole j b =
      let b' = Below-linked b in
      let (item, x) = Below-IsLive v child-IsLive b' in
      elim (At-place j) [ there s y ↦ (pi', y) | elsewhere ne y ↦ (item, y ∙ x) ]

  Cut-of : (st' : Store) → Removed (Below unlinked i) unlinked st' → Cut st p i k st'
  Cut-of st' r = record {
    next = r.next ∙ next-unlinked;
    gone = λ j b. r.gone j (Below-unlinked b);
    either = λ j ne. elim (At-place j) [
      | there s y ↦ absurd (ne s)
      | elsewhere ne' y ↦ elim (r.either j) [ inl b ↦ inl (Below-linked b) | inr q ↦ inr (q ∙ y) ]
    ];
    parent = pi;
    parent' = pi';
    at = at;
    at' =
        (let q = r.kept p (λ b. parent_above p (Below-linked b) refl) in
          elim (At-place p) [ there s y ↦ q ∙ y | elsewhere ne y ↦ absurd (ne refl) ]);
    item = sound;
    reads = reads;
    counts = counts;
  }

  destroy-Cut : Returns (destroy_item st.next i unlinked) (Cut st p i k)
  destroy-Cut =
      let le = next-unlinked in
      Returns-map
        (destroy_item-Removed st.next i unlinked unlinked-IsOwned unlinked-IsWhole (omega arith))
        Cut-of

pub edge-IsLive : (st : Store) (p c : ℕ) (k : Bytes) → edge st p k ≡ some c → IsLive st p
edge-IsLive st p c k e = elim (Option-cases (st.items p)) [
  | inl q ↦ absurd (let e' : none ≡ some c = rw q at e in cc)
  | inr live ↦ live
]

delete_found-run :
    (st st' : Store) (p i : ℕ) (k : Bytes) (item pi : Item) (t : HashTable ℕ)
    → st.items i ≡ some item
    → st.items p ≡ some pi
    → item.inuse ≡ false
    → item.parent ≡ some p
    → item.name ≡ k
    → delete_hashtable pi.children k ≡ ok t
    → destroy_item st.next i
        (save st p (record pi { children = t; ordered_array = remove_ordered i pi.ordered_array }))
      ≡ ok st'
    → delete_found st (some i) ≡ ok st'
unfolding delete_found load
delete_found-run st st' p i k item pi t at at_p idle parent name run destroyed =
    rw (at, idle, parent, at_p, name, run, destroyed) refl

-- Where the item is not in use, it is cut off its parent and freed.
pub delete_found-Cut :
    (st : Store) (p i : ℕ) (k : Bytes) (item : Item)
    → IsStore st
    → IsOwned st
    → edge st p k ≡ some i
    → st.items i ≡ some item
    → item.inuse ≡ false
    → Returns (delete_found st (some i)) (Cut st p i k)
unfolding unlinked
delete_found-Cut st p i k item v o e at idle =
    let (pi, at_p) = edge-IsLive st p i k e in
    let (parent, name) = o.forest.parents p i k item e at in
    let (t, run, ((table, reads), size)) =
      delete_hashtable-Models pi.children k (o.tables p pi at_p) in
    let short = length-remove_ordered i pi.ordered_array in
    let whole = v.sound p pi at_p in
    let pi' = record pi { children = t; ordered_array = remove_ordered i pi.ordered_array } in
    let sound : IsItem pi' = record {
      table = table;
      by_ten = whole.by_ten;
      bounded = whole.bounded;
      fits = (let f = whole.fits in omega arith);
    } in
    let (st', destroyed, cut) =
      destroy-Cut st v o p i k pi pi' at_p e sound reads
        (λ x. count-remove_ordered i x pi.ordered_array) (refl, refl, refl, refl) in
    (st', delete_found-run st st' p i k item pi t at at_p idle parent name run destroyed, cut)
