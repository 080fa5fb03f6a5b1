-- ===== src/Items/File/Fill.antt =====
-- What reading the children of an item (src/item.c) does to the store, one after another.
use native.Mathlib.Decide.{dec_lt}
use sin.Items.File.Contents.{HasContent}
use sin.Items.File.Make.{SameBody, Added}
use sin.Items.File.Trees.{
  Trees, end, tree, node, Tree, name_at, count_all, Lacks, Holds, holds, HoldsAll, holds_none,
  holds_more,
}
use sin.Items.File.{Content, plain, code}
use sin.Items.Valid.{IsStore, edge}
use sin.Items.{Item, Store}
use sin.Prelude.{
  ℕ, ◌+◌, ◌≤◌, ◌<◌, ◌≡◌, ◌≢◌, refl, ◌∙◌, some, length, Bytes, str_eq_refl, str_eq→eq, arith,
}

pub SameBody-trans : {a b c : Item} → SameBody a b → SameBody b c → SameBody a c
SameBody-trans x y = record {
  name = x.name ∙ y.name;
  type = x.type ∙ y.type;
  bytecode = x.bytecode ∙ y.bytecode;
  bytecode_len = x.bytecode_len ∙ y.bytecode_len;
  value = x.value ∙ y.value;
  parent = x.parent ∙ y.parent;
}

pub SameBody-refl : (a : Item) → SameBody a a
SameBody-refl a = record {
  name = refl;
  type = refl;
  bytecode = refl;
  bytecode_len = refl;
  value = refl;
  parent = refl;
}

SameBody-HasContent : {a b : Item} (c : Content) → SameBody a b → HasContent b c → HasContent a c
SameBody-HasContent (plain v) s (t, e) = (s.type ∙ t, s.value ∙ e)
SameBody-HasContent (code b) s (t, e, l) = (s.type ∙ t, s.bytecode ∙ e, s.bytecode_len ∙ l)

-- Item `i` has been given the children `us`; what was there before is as it was.
pub record Filled (st : Store) (i : ℕ) (item : Item) (us : Trees) (st' : Store) : Type 0 where
  pub store : IsStore st'
  pub next : st.next ≤ st'.next
  pub others : (j : ℕ) → j ≢ i → j < st.next → st'.items j ≡ st.items j
  pub item' : Item
  pub at : st'.items i ≡ some item'
  pub body : SameBody item' item
  pub size : length item'.ordered_array ≡ length item.ordered_array + count_all us
  pub children : HoldsAll st' st.next i us
  pub lacks : (k : Bytes) → Lacks k us → edge st' i k ≡ edge st i k

module _ {st st' : Store} {lo lo' : ℕ} (le : lo' ≤ lo)
    (frame : (j : ℕ) (item : Item)
      → lo ≤ j
      → st.items j ≡ some item
      → st'.items j ≡ some item) where
  -- A tree stays where the items from `lo` on stay.
  mutual
    pub Holds-frame : {j : ℕ} {t : Tree} → Holds st lo j t → Holds st' lo' j t
    Holds-frame {j} (holds item at l n h hs lacks) =
        let at' = frame j item l at in
        holds item at' (omega arith) n h (HoldsAll-frame item l at hs)
          (λ k q. let e = lacks k q in rw at' (rw at at e))

    HoldsAll-frame :
        {j : ℕ} {us : Trees} (item : Item)
        → lo ≤ j
        → st.items j ≡ some item
        → HoldsAll st lo j us
        → HoldsAll st' lo' j us
    HoldsAll-frame item l at holds_none = holds_none
    HoldsAll-frame {j} item l at (holds_more {u = u} child e h hs) =
        holds_more child (rw (frame j item l at) (rw at at e)) (Holds-frame h)
          (HoldsAll-frame item l at hs)

-- The bound on the numbers may be lowered.
pub HoldsAll-lower :
    {st : Store} {lo lo' i : ℕ} {us : Trees} → lo' ≤ lo → HoldsAll st lo i us → HoldsAll st lo' i us
HoldsAll-lower le holds_none = holds_none
HoldsAll-lower le (holds_more child e h hs) =
    holds_more child e (Holds-frame le (λ j item l at. at) h) (HoldsAll-lower le hs)

-- No child was to be read.
pub Filled-none :
    (st : Store) (i : ℕ) (item : Item)
    → IsStore st
    → st.items i ≡ some item
    → Filled st i item end st
Filled-none st i item v at = record {
  store = v;
  next = omega arith;
  others = λ j ne l. refl;
  item' = item;
  at = at;
  body = SameBody-refl item;
  size = omega arith;
  children = holds_none;
  lacks = λ k l. refl;
}

-- One child, and then the others.
pub Filled-more :
    {st st1 st2 : Store} {i : ℕ} {item : Item} {u : Tree} {us : Trees}
    → i < st.next
    → Lacks (name_at u) us
    → (a : Filled st i item (tree u end) st1) → Filled st1 i a.item' us st2
    → Filled st i item (tree u us) st2
Filled-more {st} {st1} {st2} {i} {item} {u} {us} lt distinct a b = record {
  store = b.store;
  next = (let x = a.next in let y = b.next in omega arith);
  others = λ j ne l. b.others j ne (let x = a.next in omega arith) ∙ a.others j ne l;
  item' = b.item';
  at = b.at;
  body = SameBody-trans b.body a.body;
  size = (let x = a.size in let y = b.size in omega arith);
  children = first a.children;
  lacks = λ k (ne, l). b.lacks k l ∙ a.lacks k (ne, tt);
}
  where
    kept : (j : ℕ) (it : Item) → st.next ≤ j → st1.items j ≡ some it → st2.items j ≡ some it
    kept j it le at = elim (dec_lt j st1.next) [
      | yes l ↦ b.others j (λ e. omega arith) l ∙ at
      | no nl ↦ absurd (let h = a.store.fresh j (omega arith) in cc)
    ]

    first : HoldsAll st1 st.next i (tree u end) → HoldsAll st2 st.next i (tree u us)
    first (holds_more child e h hs) =
        holds_more child (b.lacks (name_at u) distinct ∙ e) (Holds-frame (omega arith) kept h)
          (HoldsAll-lower a.next b.children)

-- A new child whose own children have been read.
pub Filled-child :
    {st st1 st2 : Store} {i : ℕ} {item : Item} {name : Bytes} {c : Content} {us : Trees}
    → st.items i ≡ some item
    → i < st.next
    → (a : Added st i item name c st1) → Filled st1 st.next a.fresh.item us st2
    → Filled st i item (tree (node name c us) end) st2
Filled-child {st} {st1} {st2} {i} {item} {name} {c} {us} at lt a f = record {
  store = f.store;
  next = (let x = a.next in let y = f.next in omega arith);
  others =
      λ j ne l. f.others j (λ e. omega arith) (let x = a.next in omega arith) ∙ a.others j ne l;
  item' = a.item';
  at = at2;
  body = a.body;
  size = a.adopted.size;
  children =
      holds_more st.next (rw at2 (ground (arith, a.adopted.reads name, str_eq_refl name)))
        (holds f.item' f.at (omega arith) (f.body.name ∙ a.fresh.named)
          (SameBody-HasContent c f.body a.fresh.content)
          (HoldsAll-lower (let x = a.next in omega arith) f.children)
          (λ k l. f.lacks k l ∙ rw (a.fresh.at) (a.fresh.childless k)))
        holds_none;
  lacks = λ k (ne, l). rw (at2, at) (let r = a.adopted.reads k in ground (arith, str_eq→eq name k));
}
  where
    at2 : st2.items i ≡ some a.item'
    at2 = f.others i (λ e. omega arith) (let x = a.next in omega arith) ∙ a.at
