-- ===== src/Items/File/Reload.antt =====
-- The item store saved and loaded again (`save_itemstore`, `load_itemstore` of src/item.c).
use sin.Items.File.Fill.{HoldsAll-lower}
use sin.HashTable.Writes.{view}
use sin.Items.File.Root.{make_root-Rooted}
use sin.Items.File.RoundTrip.{write_item-NodeBytes, write_entries-ReadsAll}
use sin.Items.File.Reads.{NodeBytes, new_AllAbsent, node_long, read_item-NodeBytes}
use sin.Items.File.Trees.{
  Tree, Trees, depth, count_all, IsTree, is_tree, Shows, shows, Alike, ShowsAll-Alike, Lacks,
  HoldsAll, depth_all,
}
use sin.Items.File.{Content, read_item, load_itemstore, save_itemstore}
use sin.Items.Paths.{path}
use sin.Items.Valid.{IsStore, edge}
use sin.Items.{Store}
use sin.Outcome.{Returns, ◌>>=◌}
use sin.Prelude.{
  AreChars, ℕ, zero, suc, ◌≤◌, ◌≡◌, refl, ap, sym, ◌∙◌, none, some, List, [], ◌∷◌, length, Bytes,
  arith,
}
use mathlib.Core.List.{append-nil}

-- A root with these children and no others.
record IsRoot (us : Trees) (st : Store) (root : ℕ) : Type 0 where
  store : IsStore st
  children : HoldsAll st 0 root us
  lacks : (k : Bytes) → Lacks k us → edge st root k ≡ none

-- The root that was read has the children of the root that was written.
IsRoot-back :
    {name : Bytes} {c : Content} {us : Trees} {bs : Bytes} (m : ℕ) (st0 : Store)
    → NodeBytes name c us bs
    → AreChars name
    → length name ≤ 32
    → count_all us ≤ 250
    → suc (depth_all us) ≤ m
    → IsStore st0
    → Returns (read_item m none st0 bs) (λ out. IsRoot us out.1 out.0)
IsRoot-back zero st0 b chars short few deep v = absurd (omega arith)
IsRoot-back {name} {c} {us} {bs} (suc m) st0 b chars short few deep v =
    let ((id, st1), e, (same, v1, next, new)) = make_root-Rooted st0 name c v short in
    let ((st2, rest), e', (f, r)) =
      b.children.back m st1 st0.next new.item [] (omega arith) v1 new.at
        (new_AllAbsent st1 st0.next us (λ k. rw (new.at) (new.childless k)))
        (let x = new.empty in omega arith) in
    let whole = read_item-NodeBytes m none st0 [] b chars short few in
    (
      (id, st2, rest),
      ap (λ (file : Bytes). read_item (suc m) none st0 file) (sym (append-nil bs))
          ∙ whole
          ∙ rw (e, same, e') refl,
      rw same (record {
        store = f.store;
        children = HoldsAll-lower (omega arith) f.children;
        lacks = λ k l. f.lacks k l ∙ rw (new.at) (new.childless k);
      }),
    )

-- Where the items below the root are a tree no deeper than the fuel, with names of at most 32 characters,
-- none of them a null, and at most 250 children each, and with values and code that a file can hold,
-- what `load_itemstore` reads from the file of `save_itemstore` has, below the root, the names and
-- contents of what was saved.
pub load-save :
    (fuel : ℕ) (st st0 : Store) (root : ℕ) (t : Tree)
    → Shows st root t
    → IsTree t
    → depth t ≤ fuel
    → IsStore st0
    → Returns (save_itemstore fuel st root >>= λ file. load_itemstore st0 (some file)) (λ out.
      (root' : ℕ) × (out.0 ≡ some root')
      × IsStore out.1
      × ((l : Bytes) (ls : List Bytes)
          → Alike st out.1 (path st (some root) (l ∷ ls)) (path out.1 (some root') (l ∷ ls))))
unfolding depth save_itemstore load_itemstore view
load-save zero st st0 root t (shows item at named has all) (is_tree chars short kept few us) deep
      v =
    absurd (omega arith)
load-save (suc n) st st0 root t (shows item at named has all) (is_tree chars short kept few us) deep
      v =
    let (bs, e, b) =
      write_item-NodeBytes n root at named has kept few all
        (write_entries-ReadsAll n (omega arith) all us) in
    let ((root', st', rest), e', r) =
      IsRoot-back (length bs) st0 b chars short few (node_long b) v in
    (
      (some root', st'),
      rw (e, e') refl,
      (root', refl, r.store, λ l ls. rw at (ShowsAll-Alike all r.children l ls (r.lacks l))),
    )
