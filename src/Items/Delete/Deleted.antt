-- ===== src/Items/Delete/Deleted.antt =====
-- What `delete_item` (src/item.c) leaves of a store.
use sin.Items.Delete.Unlink.{edge-IsLive, Cut, Below-last, delete_found-Cut}
use native.Mathlib.Decide.{ℕ_discrete}
use sin.Items.Delete.Below.{
  some_number, Below, below_self, below_child, Below-le, Below-trans, one_parent,
}
use sin.Items.Delete.Removal.{IsOwned, IsOrdered, count_item}
use sin.Items.Delete.{delete_item}
use sin.Items.Insert.{find_item-path, split_name-nonempty}
use sin.Items.Names.{split_name}
use sin.Items.Paths.{AreLayers, path, path-none, path-IsLive}
use sin.Items.Valid.{IsLive, edge, IsStore}
use sin.Items.Walk.{find_item}
use sin.Items.{Item, Store}
use sin.Outcome.{ok, Returns}
use sin.Prelude.{
  ℕ, ◌≤◌, ◌≡◌, ◌≢◌, refl, ap, ◌∙◌, sym, inl, inr, Option, none, some, List, [], ◌∷◌, length, Bytes,
  str_eq, str_eq_refl, str_eq→eq, true, false, Bool-cases, Option-cases, arith,
}

-- What a path leads to is below its start.
pub path-Below :
    {st : Store} (a b : ℕ) (ls : List Bytes) → path st (some a) ls ≡ some b → Below st a b
path-Below a b [] e = rw (some_number e) below_self
path-Below {st} a b (l ∷ ls) e = elim (Option-cases (edge st a l)) [
  | inl n ↦ absurd (let h = path-none st ls in let e' : path st none ls ≡ some b = rw n at e in cc)
  | inr (c, m) ↦ Below-trans (below_child l below_self m) (path-Below c b ls (rw m at e))
]

-- The store without the item, all that is below it, and the name that it had.
pub record Deleted (st : Store) (root i : ℕ) (st' : Store) : Type 0 where
  pub store : IsStore st'
  pub gone : (j : ℕ) → Below st i j → st'.items j ≡ none
  pub hides :
      (q : List Bytes) (j : ℕ)
      → path st (some root) q ≡ some j
      → Below st i j
      → path st' (some root) q ≡ none
  pub keeps :
      (q : List Bytes) (j : ℕ)
      → path st (some root) q ≡ some j
      → (Below st i j → ⊥)
      → path st' (some root) q ≡ some j
  pub adds_none : (q : List Bytes) → path st (some root) q ≡ none → path st' (some root) q ≡ none
  pub ordered : IsOrdered st'

module _ (st : Store) (v : IsStore st) (o : IsOwned st) (p i : ℕ) (k : Bytes)
    (e : edge st p k ≡ some i) (st' : Store) (c : Cut st p i k st') where
  IsLive-i : IsLive st i
  IsLive-i = v.closed p k i e

  parent_stays : Below st i p → ⊥
  parent_stays b = let le = Below-le o.forest b in let lt = o.forest.younger p i k e in omega arith

  -- The edges that are left: the parent has lost one, and the others of the rest are as they were.
  data Edge (j : ℕ) (q : Bytes) : Type 0 where
    lost : edge st j q ≡ some i → edge st' j q ≡ none → Edge j q
    left : edge st' j q ≡ edge st j q → (edge st j q ≢ some i) → Edge j q

  other_name : (q : Bytes) → edge st p q ≡ some i → str_eq k q ≡ false → ⊥
  other_name q e' other =
      let (item, at) = IsLive-i in
      let h = (o.forest.parents p i k item e at).1 in
      let h' = (o.forest.parents p i q item e' at).1 in
      let self = str_eq_refl k in let same : str_eq k q ≡ true = rw (← h', h) self in cc

  parent-Edge : (q : Bytes) → Edge p q
  parent-Edge q = elim (Bool-cases (str_eq k q)) [
    | inl same ↦ lost (rw (str_eq→eq k q same) at e) (rw (c.at') (ground (arith, c.reads q)))
    | inr other ↦ left (rw (c.at', c.at) (ground (arith, c.reads q))) (λ e'. other_name q e' other)
  ]

  Edge-at : (j : ℕ) (q : Bytes) → (Below st i j → ⊥) → Edge j q
  Edge-at j q n = elim (ℕ_discrete j p) [
    | yes s ↦ rw s (parent-Edge q)
    | no ne ↦ elim (c.either j ne) [
      | inl b ↦ absurd (n b)
      | inr x ↦ left (rw x refl) (λ e'. ne (one_parent q k o.forest IsLive-i e' e))
    ]
  ]

  stays :
      (j c : ℕ) (q : Bytes)
      → (Below st i j → ⊥)
      → edge st j q ≡ some c
      → edge st j q ≢ some i
      → Below st i c
      → ⊥
  stays j c q n e' ne b = elim (Below-last q o.forest (v.closed j q c e') e' b) [
    | inl s ↦ ne (e' ∙ ap some s)
    | inr b' ↦ n b'
  ]

  -- A path in what is left, against the same path in the store.
  data After (j : ℕ) (q : List Bytes) : Type 0 where
    same : path st' (some j) q ≡ path st (some j) q → After j q
    hidden :
        (t : Option ℕ)
        → path st (some j) q ≡ t
        → ((x : ℕ) → t ≡ some x → Below st i x)
        → path st' (some j) q ≡ none
        → After j q

  after : (j : ℕ) (q : List Bytes) → (Below st i j → ⊥) → After j q
  after j [] n = same refl
  after j (l ∷ ls) n = elim (Edge-at j l n) [
    | lost x y ↦
        hidden (path st (some i) ls) (rw x refl) (λ z w. path-Below i z ls w)
          (rw y (path-none st' ls))
    | left x ne ↦ elim (Option-cases (edge st j l)) [
      | inl m ↦ same (rw (x, m, path-none st' ls, path-none st ls) refl)
      | inr (c, m) ↦ further c m x ne (after c ls (stays j c l n m ne))
    ]
  ]
    where
      further :
          (c : ℕ)
          → edge st j l ≡ some c
          → edge st' j l ≡ edge st j l
          → edge st j l ≢ some i
          → After c ls
          → After j (l ∷ ls)
      further c m x ne (same y) = same (rw (x, m) y)
      further c m x ne (hidden t a b y) = hidden t (rw m a) b (rw (x, m) y)

  cut-IsLive : (j : ℕ) → IsLive st j → (Below st i j → ⊥) → IsLive st' j
  cut-IsLive j (item, at) n = elim (ℕ_discrete j p) [
    | yes s ↦ (c.parent', rw s (c.at'))
    | no ne ↦ elim (c.either j ne) [ inl b ↦ absurd (n b) | inr x ↦ (item, x ∙ at) ]
  ]

  not-Below : (j : ℕ) → IsLive st' j → Below st i j → ⊥
  not-Below j (item, at) b = let h = c.gone j b in cc

  cut-closed : (j : ℕ) (q : Bytes) (d : ℕ) → edge st' j q ≡ some d → IsLive st' d
  cut-closed j q d e' =
      let n = not-Below j (edge-IsLive st' j d q e') in
      elim (Edge-at j q n) [
        | lost x y ↦ absurd (let z : none ≡ some d = sym y ∙ e' in cc)
        | left x ne ↦ (let m = sym x ∙ e' in cut-IsLive d (v.closed j q d m) (stays j d q n m ne))
      ]

  cut-IsStore : IsStore st'
  cut-IsStore = record {
    fresh = λ j le. elim (ℕ_discrete j p) [
      | yes s ↦ absurd (let h = v.fresh p (let z = c.next in omega arith) in let x = c.at in cc)
      | no ne ↦ elim (c.either j ne) [
        | inl b ↦ c.gone j b
        | inr x ↦ x ∙ v.fresh j (let z = c.next in omega arith)
      ]
    ];
    sound = λ j item at. elim (ℕ_discrete j p) [
      | yes s ↦
          (let at2 : st'.items p ≡ some item = rw s at at in
            let x = c.at' in let eq : c.parent' ≡ item = cc in rw (← eq) (c.item))
      | no ne ↦ elim (c.either j ne) [
        | inl b ↦ absurd (let h = c.gone j b in cc)
        | inr x ↦ v.sound j item (sym x ∙ at)
      ]
    ];
    closed = cut-closed;
  }

  -- What stands in the parent's array is another child of it.
  parent-ordered :
      IsOrdered st
      → (x : ℕ) → 1 ≤ count_item x c.parent'.ordered_array
      → (q : Bytes) × (edge st' p q ≡ some x)
  parent-ordered w x held =
      let once = w.once p x c.parent c.at in
      let counted = c.counts x in
      let (q, e') = w.children p x c.parent c.at (ground arith) in
      elim (parent-Edge q) [
        | lost y z ↦ absurd (let same : x ≡ i = some_number (sym e' ∙ y) in ground arith)
        | left y ne ↦ (q, y ∙ e')
      ]

  cut-IsOrdered : IsOrdered st → IsOrdered st'
  cut-IsOrdered w = record {
    children = λ j x item at held. elim (ℕ_discrete j p) [
      | yes s ↦
          (let at2 : st'.items p ≡ some item = rw s at at in
            let y = c.at' in
            let eq : c.parent' ≡ item = cc in rw s (parent-ordered w x (rw (← eq) at held)))
      | no ne ↦ elim (c.either j ne) [
        | inl b ↦ absurd (let h = c.gone j b in cc)
        | inr y ↦ (let (q, e') = w.children j x item (sym y ∙ at) held in (q, rw y e'))
      ]
    ];
    once = λ j x item at. elim (ℕ_discrete j p) [
      | yes s ↦
          (let at2 : st'.items p ≡ some item = rw s at at in
            let y = c.at' in
            let eq : c.parent' ≡ item = cc in
            let once = w.once p x c.parent c.at in
            let counted = c.counts x in rw (← eq) (omega arith))
      | no ne ↦ elim (c.either j ne) [
        | inl b ↦ absurd (let h = c.gone j b in cc)
        | inr y ↦ w.once j x item (sym y ∙ at)
      ]
    ];
  }

  cut-Deleted :
      (root : ℕ) → IsOrdered st → IsLive st root → (Below st i root → ⊥) → Deleted st root i st'
  cut-Deleted root w live n = record {
    ordered = cut-IsOrdered w;
    store = cut-IsStore;
    gone = c.gone;
    hides = λ q j a b. elim (after root q n) [
      | same x ↦
          absurd (not-Below j (path-IsLive root j q cut-IsStore (cut-IsLive root live n) (x ∙ a)) b)
      | hidden t y z x ↦ x
    ];
    keeps = λ q j a m. elim (after root q n) [
      | same x ↦ x ∙ a
      | hidden t y z x ↦ absurd (m (z j (sym y ∙ a)))
    ];
    adds_none = λ q a. elim (after root q n) [ same x ↦ x ∙ a | hidden t y z x ↦ x ];
  }

-- The last step of a path.
last_edge :
    (st : Store) (a b : ℕ) (l : Bytes) (ls : List Bytes)
    → path st (some a) (l ∷ ls) ≡ some b
    → (p : ℕ) × (k : Bytes) × (edge st p k ≡ some b) × Below st a p
last_edge st a b l [] e = (a, l, e, below_self)
last_edge st a b l (l' ∷ ls) e = elim (Option-cases (edge st a l)) [
  | inl n ↦ absurd (let e' : path st none (l' ∷ ls) ≡ some b = step none n in cc)
  | inr (c, m) ↦
      let (p, k, e', below) = last_edge st c b l' ls (step (some c) m) in
      (p, k, e', Below-trans (below_child l below_self m) below)
]
  where
    step : (o : Option ℕ) → edge st a l ≡ o → path st o (l' ∷ ls) ≡ some b
    step o n = ap (λ (x : Option ℕ). path st x (l' ∷ ls)) (sym n) ∙ e

-- Where the name leads to an item that is not in use, `delete_item` returns: the item and all that
-- is below it are freed, whether those are in use or not, their names lead nowhere, every other name
-- leads where it led, and the arrays of children of what is left hold, as before, children that are
-- there, each once.
pub delete_item-Deleted :
    (st : Store) (root i : ℕ) (name : Bytes) (item : Item)
    → IsStore st
    → IsOwned st
    → IsOrdered st
    → IsLive st root
    → AreLayers (split_name name)
    → find_item st root name ≡ ok (some i)
    → st.items i ≡ some item
    → item.inuse ≡ false
    → Returns (delete_item st root name) (Deleted st root i)
unfolding delete_item
delete_item-Deleted st root i name item v o w live layers found at idle =
    let walked = find_item-path st root name v live layers in
    let led : path st (some root) (split_name name) ≡ some i = cc in
    let (p, k, e, below) = led_edge (split_name name) (split_name-nonempty name) led in
    let (st', run, cut) = delete_found-Cut st p i k item v o e at idle in
    let apart : Below st i root → ⊥ = λ b.
      let x = Below-le o.forest b in
      let y = Below-le o.forest below in let z = o.forest.younger p i k e in omega arith in
    (st', rw (found, run) refl, cut-Deleted st v o p i k e st' cut root w live apart)
  where
    led_edge :
        (ls : List Bytes)
        → 1 ≤ length ls
        → path st (some root) ls ≡ some i
        → (p : ℕ) × (k : Bytes) × (edge st p k ≡ some i) × Below st root p
    led_edge [] h e = absurd (omega arith)
    led_edge (l ∷ ls) h e = last_edge st root i l ls e
