-- ===== src/Items/File/Trees.antt =====
-- The tree of names and contents that the items of src/item.c stand for, as it is written and as it
-- is read.
use mathlib.Core.List.{flatten}
use sin.HashTable.Writes.{view}
use sin.HashTable.{Entry, Chain, find_entry}
use sin.Items.File.Contents.{IsKept, HasContent}
use sin.Items.File.{Content}
use sin.Items.Paths.{path, path-none}
use sin.Items.Valid.{edge}
use sin.Items.{Item, Store}
use sin.Prelude.{
  AreChars, ℕ, suc, max, ◌≤◌, ◌≡◌, ◌≢◌, sym, ◌∙◌, Option, none, some, List, [], ◌∷◌, length, Bytes,
  str_eq, str_eq→eq, str_eq_refl, Bool-cases, true, inl, inr,
}

mutual
  pub data Tree : Type 0 where
    node : Bytes → Content → Trees → Tree

  pub data Trees : Type 0 where
    end : Trees
    tree : Tree → Trees → Trees

unfoldable mutual
  pub depth : Tree → ℕ
  depth (node name c us) = suc (depth_all us)

  pub depth_all : Trees → ℕ
  depth_all end = 0
  depth_all (tree u us) = max (depth u) (depth_all us)

abbrev pub name_at : Tree → Bytes
name_at (node name c us) = name

abbrev pub count_all : Trees → ℕ
count_all end = 0
count_all (tree u us) = suc (count_all us)

-- No tree has the name.
abbrev pub Lacks : Bytes → Trees → Type 0
Lacks k end = Unit {0}
Lacks k (tree u us) = (name_at u ≢ k) × Lacks k us

-- Names of at most 32 characters, at most 250 children of different names, and contents that a file
-- can keep.
mutual
  pub data IsTree : Tree → Type 0 where
    is_tree :
        {name : Bytes} {c : Content} {us : Trees}
        → AreChars name
        → length name ≤ 32
        → IsKept c
        → count_all us ≤ 250
        → AreTrees us
        → IsTree (node name c us)

  pub data AreTrees : Trees → Type 0 where
    are_none : AreTrees end
    are_more :
        {u : Tree} {us : Trees}
        → IsTree u
        → Lacks (name_at u) us
        → AreTrees us
        → AreTrees (tree u us)

-- The item at `i` stands for the tree, its children in the order of the buckets.
mutual
  pub data Shows (st : Store) : ℕ → Tree → Type 0 where
    shows :
        {i : ℕ} {name : Bytes} {c : Content} {us : Trees} (item : Item)
        → st.items i ≡ some item
        → item.name ≡ name
        → HasContent item c
        → ShowsAll st (flatten item.children.table) us
        → Shows st i (node name c us)

  pub data ShowsAll (st : Store) : Chain ℕ → Trees → Type 0 where
    shows_none : ShowsAll st [] end
    shows_more :
        {e : Entry ℕ} {es : Chain ℕ} {u : Tree} {us : Trees}
        → e.key ≡ name_at u
        → Shows st e.child u
        → ShowsAll st es us
        → ShowsAll st (e ∷ es) (tree u us)

-- The item at `i` has these children and no others, all at numbers from `lo` on.
mutual
  pub data Holds (st : Store) (lo : ℕ) : ℕ → Tree → Type 0 where
    holds :
        {i : ℕ} {name : Bytes} {c : Content} {us : Trees} (item : Item)
        → st.items i ≡ some item
        → lo ≤ i
        → item.name ≡ name
        → HasContent item c
        → HoldsAll st lo i us
        → ((k : Bytes) → Lacks k us → edge st i k ≡ none)
        → Holds st lo i (node name c us)

  pub data HoldsAll (st : Store) (lo : ℕ) : ℕ → Trees → Type 0 where
    holds_none : {i : ℕ} → HoldsAll st lo i end
    holds_more :
        {i : ℕ} {u : Tree} {us : Trees} (child : ℕ)
        → edge st i (name_at u) ≡ some child
        → Holds st lo child u
        → HoldsAll st lo i us
        → HoldsAll st lo i (tree u us)

-- Two items with one name and one content.
pub record SameItem (st st' : Store) (i i' : ℕ) : Type 0 where
  pub item : Item
  pub item' : Item
  pub content : Content
  pub at : st.items i ≡ some item
  pub at' : st'.items i' ≡ some item'
  pub names : item'.name ≡ item.name
  pub has : HasContent item content
  pub has' : HasContent item' content

-- No item on either side, or the same.
abbrev pub Alike : Store → Store → Option ℕ → Option ℕ → Type 0
Alike st st' none none = Unit {0}
Alike st st' (some i) (some i') = SameItem st st' i i'
Alike st st' _ _ = ⊥

none-Alike : (st st' : Store) (ls : List Bytes) → Alike st st' (path st none ls) (path st' none ls)
none-Alike st st' ls = rw (path-none st ls, path-none st' ls) tt

-- An item that shows a tree and one that holds it agree on every path.
mutual
  unfolding view find_entry

  Shows-Alike :
      {st st' : Store} {lo i i' : ℕ} {t : Tree}
      → Shows st i t
      → Holds st' lo i' t
      → (ls : List Bytes) → Alike st st' (path st (some i) ls) (path st' (some i') ls)
  Shows-Alike (shows item at n h all) (holds item' at' _ n' h' all' lacks) [] = record {
    item = item;
    item' = item';
    content = _;
    at = at;
    at' = at';
    names = cc;
    has = h;
    has' = h';
  }
  Shows-Alike {st} (shows item at n h all) (holds item' at' _ n' h' all' lacks) (l ∷ ls) =
      rw at (ShowsAll-Alike all all' l ls (lacks l))

  pub ShowsAll-Alike :
      {st st' : Store} {lo i' : ℕ} {es : Chain ℕ} {us : Trees}
      → ShowsAll st es us
      → HoldsAll st' lo i' us
      → (l : Bytes) (ls : List Bytes) → (Lacks l us → edge st' i' l ≡ none)
      → Alike st st' (path st (find_entry l es) ls) (path st' (edge st' i' l) ls)
  ShowsAll-Alike {st} {st'} shows_none holds_none l ls lacks = rw (lacks tt) (none-Alike st st' ls)
  ShowsAll-Alike (shows_more {e = e} {u = u} key first rest) (holds_more child at h hs) l ls lacks =
      elim (Bool-cases (str_eq e.key l)) [
        | inl same ↦
            let q : name_at u ≡ l = sym key ∙ str_eq→eq e.key l same in
            rw (same, rw q at at) (Shows-Alike first h ls)
        | inr other ↦
            let ne : name_at u ≢ l =
              λ q. let r = str_eq_refl l in (let s : str_eq e.key l ≡ true = rw (key, q) r in cc) in
            rw other (ShowsAll-Alike rest hs l ls (λ k. lacks (ne, k)))
      ]
