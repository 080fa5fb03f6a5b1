-- ===== src/Items/File/Reads.antt =====
-- What `read_item` (src/item.c) makes of the bytes of one item and its children.
use sin.Items.File.Fields.{
  append_assoc, length-le_bytes, fread-name_field, c_string-name_field, read_number4,
}
use sin.Items.File.Fill.{Filled, Filled-child}
use sin.Items.File.Make.{make_read-Added}
use sin.Items.File.Trees.{Tree, node, Trees, end, tree, depth, depth_all, name_at, count_all, Lacks}
use sin.Items.File.{
  Content, le_bytes, name_field, read_content, make_read, read_children, read_item,
}
use sin.Items.Valid.{IsStore, edge}
use sin.Items.{Item, Store}
use sin.Outcome.{ok, Returns, ◌>>=◌}
use sin.Prelude.{
  AreChars, ℕ, zero, suc, ◌+◌, ◌≤◌, ◌<◌, ◌≡◌, ◌≢◌, refl, ◌∙◌, sym, Option, none, some, ◌++◌, length,
  length-append, Bytes, arith,
}

-- No child of item `i` has the name of one of the trees.
abbrev pub AllAbsent : Store → ℕ → Trees → Type 0
AllAbsent st i end = Unit {0}
AllAbsent st i (tree u us) = (edge st i (name_at u) ≡ none) × AllAbsent st i us

pub AllAbsent-kept :
    (st st' : Store) (i : ℕ) (name : Bytes) (us : Trees)
    → Lacks name us
    → ((k : Bytes) → name ≢ k → edge st' i k ≡ edge st i k)
    → AllAbsent st i us
    → AllAbsent st' i us
AllAbsent-kept st st' i name end l kept a = tt
AllAbsent-kept st st' i name (tree u us) (ne, l) kept (e, a) =
    (kept (name_at u) (λ q. ne (sym q)) ∙ e, AllAbsent-kept st st' i name us l kept a)

-- What is read of the bytes, with any `rest` behind them, is this tree or these trees.
pub record Reads (t : Tree) (bs : Bytes) : Type 0 where
  pub long : depth t ≤ length bs
  pub back :
      (m : ℕ) (st : Store) (i : ℕ) (item : Item) (rest : Bytes)
      → depth t ≤ m
      → IsStore st
      → st.items i ≡ some item
      → edge st i (name_at t) ≡ none
      → length item.ordered_array < 250
      → Returns
          (read_item m (some i) st (bs ++ rest))
          (λ out. Filled st i item (tree t end) out.1 × (out.2 ≡ rest))

pub record ReadsAll (us : Trees) (bs : Bytes) : Type 0 where
  pub long : depth_all us ≤ length bs
  pub back :
      (m : ℕ) (st : Store) (i : ℕ) (item : Item) (rest : Bytes)
      → depth_all us ≤ m
      → IsStore st
      → st.items i ≡ some item
      → AllAbsent st i us
      → length item.ordered_array + count_all us ≤ 250
      → Returns
          (read_children (read_item m (some i)) (count_all us) st (bs ++ rest))
          (λ out. Filled st i item us out.0 × (out.1 ≡ rest))

-- The bytes of an item, field by field.
pub record NodeBytes (name : Bytes) (c : Content) (us : Trees) (bs : Bytes) : Type 0 where
  pub content_bytes : Bytes
  pub children_bytes : Bytes
  pub shape :
      bs ≡ name_field name ++ (content_bytes ++ (le_bytes 4 (count_all us) ++ children_bytes))
  pub content : (rest : Bytes) → read_content (content_bytes ++ rest) ≡ ok (c, rest)
  pub children : ReadsAll us children_bytes

-- The reader comes through the fields to the children.
pub read_item-NodeBytes :
    {name : Bytes} {c : Content} {us : Trees} {bs : Bytes} (m : ℕ) (parent : Option ℕ) (st : Store)
    (rest : Bytes) (b : NodeBytes name c us bs)
    → AreChars name
    → length name ≤ 32
    → count_all us ≤ 250
    → read_item (suc m) parent st (bs ++ rest) ≡ (do
      (id, st1) ← make_read st parent name c
      (st2, rest3) ←
          read_children (read_item m (some id)) (count_all us) st1 (b.children_bytes ++ rest)
      ok (id, st2, rest3))
unfolding read_item
read_item-NodeBytes {name} {us = us} m parent st rest b chars short few =
    let behind = le_bytes 4 (count_all us) ++ b.children_bytes in
    rw
      (
        b.shape,
        append_assoc (name_field name) (b.content_bytes ++ behind) rest,
        append_assoc b.content_bytes behind rest,
        append_assoc (le_bytes 4 (count_all us)) b.children_bytes rest,
        fread-name_field name _ short,
        b.content _,
        read_number4 (count_all us) (b.children_bytes ++ rest) (omega arith),
        c_string-name_field name chars short,
      )
      refl

pub node_long :
    {name : Bytes} {c : Content} {us : Trees} {bs : Bytes}
    → NodeBytes name c us bs
    → suc (depth_all us) ≤ length bs
node_long {name} {us = us} b =
    let counted = le_bytes 4 (count_all us) in
    let x = b.children.long in
    let e1 = length-append (name_field name) (b.content_bytes ++ (counted ++ b.children_bytes)) in
    let e2 = length-append b.content_bytes (counted ++ b.children_bytes) in
    let e3 = length-append counted b.children_bytes in
    let e4 = length-le_bytes 4 (count_all us) in rw (b.shape) (omega arith)

-- No child of a new item is there.
pub new_AllAbsent :
    (st : Store) (i : ℕ) (us : Trees) → ((k : Bytes) → edge st i k ≡ none) → AllAbsent st i us
new_AllAbsent st i end h = tt
new_AllAbsent st i (tree u us) h = (h (name_at u), new_AllAbsent st i us h)

node_back :
    {name : Bytes} {c : Content} {us : Trees} {bs : Bytes} (m : ℕ) (st : Store) (i : ℕ)
    (item : Item) (rest : Bytes)
    → NodeBytes name c us bs
    → AreChars name
    → length name ≤ 32
    → count_all us ≤ 250
    → suc (depth_all us) ≤ m
    → IsStore st
    → st.items i ≡ some item
    → edge st i name ≡ none
    → length item.ordered_array < 250
    → Returns
        (read_item m (some i) st (bs ++ rest))
        (λ out. Filled st i item (tree (node name c us) end) out.1 × (out.2 ≡ rest))
node_back zero st i item rest b chars short few deep v at absent room = absurd (omega arith)
node_back {name} {c} {us} (suc m) st i item rest b chars short few deep v at absent room =
    let ((id, st1), e, (same, a)) =
      make_read-Added st i item name c v at (rw at at absent) room short in
    let ((st2, rest3), e', (f, r)) =
      b.children.back m st1 st.next a.fresh.item rest (omega arith) a.store a.fresh.at
        (new_AllAbsent st1 st.next us (λ k. rw (a.fresh.at) (a.fresh.childless k)))
        (let x = a.fresh.empty in omega arith) in
    let lt : i < st.next = ground (arith, v.fresh i) in
    (
      (id, st2, rest3),
      read_item-NodeBytes m (some i) st rest b chars short few ∙ rw (e, same, e') refl,
      (Filled-child at lt a f, r),
    )

pub node-Reads :
    {name : Bytes} {c : Content} {us : Trees} {bs : Bytes}
    → NodeBytes name c us bs
    → AreChars name
    → length name ≤ 32
    → count_all us ≤ 250
    → Reads (node name c us) bs
unfolding depth
node-Reads b chars short few = record {
  long = node_long b;
  back = λ m st i item rest deep v at absent room.
      node_back m st i item rest b chars short few deep v at absent room;
}
