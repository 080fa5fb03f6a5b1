-- ===== src/Items/Delete/Below.antt =====
-- The items below an item in the tree of src/item.c.
use sin.Items.Valid.{edge, IsLive}
use sin.Items.{Item, Store}
use sin.Prelude.{ℕ, ◌≤◌, ◌<◌, ◌≡◌, ◌≢◌, refl, ◌∙◌, sym, ◌⊎◌, inl, inr, none, some, Bytes, arith}

-- Item `j` is item `i`, or below it.
pub data Below (st : Store) (i : ℕ) : ℕ → Type 0 where
  below_self : Below st i i
  below_child : {j c : ℕ} (k : Bytes) → Below st i j → edge st j k ≡ some c → Below st i c

-- Every child knows its parent and the name that it has there, and is younger.
pub record IsForest (st : Store) : Type 0 where
  pub parents :
      (i c : ℕ) (k : Bytes) (item : Item)
      → edge st i k ≡ some c
      → st.items c ≡ some item
      → (item.parent ≡ some i) × (item.name ≡ k)
  pub younger : (i c : ℕ) (k : Bytes) → edge st i k ≡ some c → i < c

pub Below-le : {st : Store} {i j : ℕ} → IsForest st → Below st i j → i ≤ j
Below-le f below_self = omega arith
Below-le f (below_child {j} {c} k b e) = omega (arith, Below-le f b, f.younger j c k e)

pub Below-trans : {st : Store} {i j k : ℕ} → Below st i j → Below st j k → Below st i k
Below-trans b below_self = b
Below-trans b (below_child k b' e) = below_child k (Below-trans b b') e

-- Below an item is the item, or what is below one of its children.
pub Below-head :
    {st : Store} {i j : ℕ}
    → Below st i j
    → (j ≡ i) ⊎ ((k : Bytes) × (c : ℕ) × (edge st i k ≡ some c) × Below st c j)
Below-head below_self = inl refl
Below-head (below_child {j} {c} k b e) = elim (Below-head b) [
  | inl same ↦ inr (k, c, rw same at e, below_self)
  | inr (k', c', e', b') ↦ inr (k', c', e', below_child k b' e)
]

pub some_number : {a b : ℕ} → some a ≡ some b → a ≡ b
some_number e = cc

-- All that is below the item is live.
abbrev pub IsWhole : Store → ℕ → Type 0
IsWhole st i = (j : ℕ) → Below st i j → IsLive st j

-- Two edges to one live item start at one item.
pub one_parent :
    {st : Store} {i j c : ℕ} (k l : Bytes)
    → IsForest st
    → IsLive st c
    → edge st i k ≡ some c
    → edge st j l ≡ some c
    → i ≡ j
one_parent {i = i} {j} {c} k l f (item, at) e e' =
    some_number (sym (f.parents i c k item e at).0 ∙ (f.parents j c l item e' at).0)

-- Of two items above a third, one is above the other.
linear :
    {st : Store} {a b j : ℕ}
    → IsForest st
    → IsWhole st a
    → Below st a j
    → Below st b j
    → Below st a b ⊎ Below st b a
linear f live below_self y = inr y
linear f live (below_child k x e) below_self = inl (below_child k x e)
linear f live (below_child {c = c} k x e) (below_child k' y e') =
    let same = one_parent k k' f (live c (below_child k x e)) e e' in linear f live x (rw same y)

not-Below-sibling :
    {st : Store} {a b : ℕ} (i : ℕ) (k l : Bytes)
    → IsForest st
    → IsLive st b
    → edge st i k ≡ some a
    → edge st i l ≡ some b
    → a ≢ b
    → Below st a b
    → ⊥
not-Below-sibling i k l f live e e' ne below_self = ne refl
not-Below-sibling {a = a} i k l f live e e' ne (below_child {j} k' x e'') =
    let same = one_parent k' l f live e'' e' in
    let le = Below-le f x in let lt = f.younger i a k e in omega arith

-- Nothing is below two children of one item.
pub siblings_apart :
    {st : Store} {a b j : ℕ} (i : ℕ) (k l : Bytes)
    → IsForest st
    → IsWhole st a
    → IsWhole st b
    → edge st i k ≡ some a
    → edge st i l ≡ some b
    → a ≢ b
    → Below st a j
    → Below st b j
    → ⊥
siblings_apart {a = a} {b} i k l f live live' e e' ne x y = elim (linear f live x y) [
  | inl z ↦ not-Below-sibling i k l f (live' b below_self) e e' ne z
  | inr z ↦ not-Below-sibling i l k f (live a below_self) e' e (λ q. ne (sym q)) z
]

-- A store from which items may have gone.
abbrev pub Shrinks : Store → Store → Type 0
Shrinks st st' = (j : ℕ) → (st'.items j ≡ none) ⊎ (st'.items j ≡ st.items j)

pub Shrinks-edge :
    (st st' : Store) (i c : ℕ) (k : Bytes)
    → Shrinks st st'
    → edge st' i k ≡ some c
    → edge st i k ≡ some c
Shrinks-edge st st' i c k s e = elim (s i) [
  | inl q ↦ absurd (let e' : none ≡ some c = rw q at e in cc)
  | inr q ↦ rw q at e
]

pub Shrinks-IsForest : {st st' : Store} → IsForest st → Shrinks st st' → IsForest st'
Shrinks-IsForest {st} {st'} f s = record {
  parents = λ i c k item e at. elim (s c) [
    | inl q ↦ absurd (let e' : none ≡ some item = sym q ∙ at in cc)
    | inr q ↦ f.parents i c k item (Shrinks-edge st st' i c k s e) (sym q ∙ at)
  ];
  younger = λ i c k e. f.younger i c k (Shrinks-edge st st' i c k s e);
}

pub Shrinks-Below : {st st' : Store} {i j : ℕ} → Shrinks st st' → Below st' i j → Below st i j
Shrinks-Below s below_self = below_self
Shrinks-Below {st} {st'} s (below_child {j} {c} k b e) =
    below_child k (Shrinks-Below s b) (Shrinks-edge st st' j c k s e)

-- What is below an item stays so where all of it stays.
pub Below-kept :
    {st st' : Store} {i j : ℕ}
    → ((x : ℕ) → Below st i x → st'.items x ≡ st.items x)
    → Below st i j
    → Below st' i j
Below-kept kept below_self = below_self
Below-kept kept (below_child {j} k b e) = below_child k (Below-kept kept b) (rw (kept j b) e)
