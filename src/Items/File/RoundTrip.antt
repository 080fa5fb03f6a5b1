-- ===== src/Items/File/RoundTrip.antt =====
-- `read_item` after `write_item` (src/item.c).
use mathlib.Core.List.{flatten}
use sin.HashTable.{Chain, num_entries}
use sin.Items.File.Contents.{IsKept, HasContent, read_content-write_content}
use sin.Items.File.Fields.{append_assoc}
use sin.Items.File.Fill.{Filled, Filled-none, Filled-more}
use sin.Items.File.Trees.{
  Tree, Trees, end, tree, depth, depth_all, name_at, count_all, Lacks, IsTree, is_tree, AreTrees,
  are_none, are_more, Shows, shows, ShowsAll, shows_none, shows_more,
}
use sin.Items.File.{
  Content, le_bytes, name_field, read_children, read_item, write_entries, write_item,
}
use sin.Items.Valid.{IsStore, edge}
use sin.Items.{Item, Store, load}
use sin.Outcome.{Returns, Returns-map}
use sin.Prelude.{
  ℕ, zero, suc, ◌+◌, ◌%◌, ◌^◌, ◌≤◌, ◌≡◌, ◌≢◌, refl, ap, some, [], ◌++◌, length, length-append,
  Bytes, arith,
}
use sin.Items.File.Reads.{AllAbsent, AllAbsent-kept, Reads, ReadsAll, NodeBytes, node-Reads}

ReadsAll-none : ReadsAll end []
unfolding depth read_children
ReadsAll-none = record {
  long = omega arith;
  back = λ m st i item rest deep v at absent room.
      ((st, rest), refl, (Filled-none st i item v at, refl));
}

more_back :
    {u : Tree} {us : Trees} {a b : Bytes} (m : ℕ) (st : Store) (i : ℕ) (item : Item) (rest : Bytes)
    → Reads u a
    → ReadsAll us b
    → Lacks (name_at u) us
    → depth u ≤ m
    → depth_all us ≤ m
    → IsStore st
    → st.items i ≡ some item
    → AllAbsent st i (tree u us)
    → length item.ordered_array + suc (count_all us) ≤ 250
    → Returns
        (read_children (read_item m (some i)) (suc (count_all us)) st ((a ++ b) ++ rest))
        (λ out. Filled st i item (tree u us) out.0 × (out.1 ≡ rest))
unfolding read_children
more_back {u} {us} {a} {b} m st i item rest first others distinct d ds v at (no_u, no_us) room =
    let ((id, st1, rest1), e, (f, r)) =
      first.back m st i item (b ++ rest) d v at no_u (omega arith) in
    let x = f.size in
    let kept : (k : Bytes) → name_at u ≢ k → edge st1 i k ≡ edge st i k =
      λ k ne. f.lacks k (ne, tt) in
    let ((st2, rest2), e', (g, r')) =
      others.back m st1 i f.item' rest ds f.store f.at
        (AllAbsent-kept st st1 i (name_at u) us distinct kept no_us) (omega arith) in
    (
      (st2, rest2),
      rw (append_assoc a b rest, e, r) e',
      (Filled-more (ground (arith, v.fresh i)) distinct f g, r'),
    )

ReadsAll-more :
    {u : Tree} {us : Trees} {a b : Bytes}
    → Reads u a
    → ReadsAll us b
    → Lacks (name_at u) us
    → ReadsAll (tree u us) (a ++ b)
unfolding depth
ReadsAll-more {a = a} {b = b} first others distinct = record {
  long = (let x = first.long in let y = others.long in let e = length-append a b in omega arith);
  back = λ m st i item rest deep v at absent room.
      more_back m st i item rest first others distinct (omega arith) (omega arith) v at absent room;
}

ShowsAll-count :
    {st : Store} {es : Chain ℕ} {us : Trees} → ShowsAll st es us → length es ≡ count_all us
ShowsAll-count shows_none = refl
ShowsAll-count (shows_more key first rest) = ap suc (ShowsAll-count rest)

-- The item itself is written before its children.
pub write_item-NodeBytes :
    {st : Store} {item : Item} {name : Bytes} {c : Content} {us : Trees} (n i : ℕ)
    → st.items i ≡ some item
    → item.name ≡ name
    → HasContent item c
    → IsKept c
    → count_all us ≤ 250
    → ShowsAll st (flatten item.children.table) us
    → Returns (write_entries (write_item n st) (flatten item.children.table)) (ReadsAll us)
    → Returns (write_item (suc n) st i) (NodeBytes name c us)
unfolding write_item load num_entries
write_item-NodeBytes {item = item} {name} {c} {us} n i at named has kept few all (kids, e, r) =
    let (content, e', back) = read_content-write_content item c kept has in
    let count = ShowsAll-count all in
    let small : length (flatten item.children.table) % 2 ^ 32 ≡ count_all us = omega arith in
    (
      name_field name ++ (content ++ (le_bytes 4 (count_all us) ++ kids)),
      rw (at, e', e, named, small) refl,
      record {
        content_bytes = content;
        children_bytes = kids;
        shape = refl;
        content = back;
        children = r;
      },
    )

-- What `write_item` writes of an item reads back as its tree.
mutual
  unfolding depth write_entries

  write_item-Reads :
      {st : Store} {i : ℕ} {t : Tree} (n : ℕ)
      → depth t ≤ n
      → Shows st i t
      → IsTree t
      → Returns (write_item n st i) (Reads t)
  write_item-Reads zero deep (shows item at named has all) (is_tree chars short kept few us) =
      absurd (omega arith)
  write_item-Reads {i = i} (suc n) deep (shows item at named has all)
        (is_tree chars short kept few us) =
      Returns-map
        (write_item-NodeBytes n i at named has kept few all
          (write_entries-ReadsAll n (omega arith) all us))
        (λ bs b. node-Reads b chars short few)

  pub write_entries-ReadsAll :
      {st : Store} {es : Chain ℕ} {us : Trees} (n : ℕ)
      → depth_all us ≤ n
      → ShowsAll st es us
      → AreTrees us
      → Returns (write_entries (write_item n st) es) (ReadsAll us)
  write_entries-ReadsAll n deep shows_none are_none = ([], refl, ReadsAll-none)
  write_entries-ReadsAll n deep (shows_more key first rest) (are_more u distinct us) =
      let (a, e, r) = write_item-Reads n (omega arith) first u in
      let (b, e', r') = write_entries-ReadsAll n (omega arith) rest us in
      (a ++ b, rw (e, e') refl, ReadsAll-more r r' distinct)
