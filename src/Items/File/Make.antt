-- ===== src/Items/File/Make.antt =====
-- What `make_item` and `make_root_item` (src/item.c) leave as it was, for the reader of a file.
use sin.HashTable.Writes.{view}
use sin.Items.File.Contents.{HasContent}
use sin.Items.File.{Content, plain, code, make_read}
use sin.Items.Make.{
  after, parent-lt, after-IsStore, new_item-IsItem, new_item-view, new_item-size, copy_layer-short,
}
use sin.Items.Valid.{IsItem, IsStore, Adopted, adopt-Adopted}
use sin.Items.{
  value_item, code_item, Item, Store, load, save, new_item, adopt, make_item, append_ordered,
  resize_ordered_array, typed_item,
}
use sin.Outcome.{ok, Returns, Returns-of_bind}
use sin.HashTable.{HashTable, insert_hashtable, maybe_resize_hashtable}
use sin.Prelude.{ℕ, suc, ◌≤◌, ◌<◌, ◌≡◌, ◌≢◌, refl, none, some, [], length, Bytes, arith}
use sin.Value.{value_zero}

-- The item that `make_item` makes of what was read.
abbrev pub read_new : Bytes → ℕ → Content → Item
read_new name i (plain v) = typed_item value_item name i v []
read_new name i (code b) = typed_item code_item name i value_zero b

-- All of an item but its children.
pub record SameBody (a b : Item) : Type 0 where
  pub name : a.name ≡ b.name
  pub type : a.type ≡ b.type
  pub bytecode : a.bytecode ≡ b.bytecode
  pub bytecode_len : a.bytecode_len ≡ b.bytecode_len
  pub value : a.value ≡ b.value
  pub parent : a.parent ≡ b.parent

-- A new item that has no children.
pub record IsNew (st : Store) (name : Bytes) (c : Content) (id : ℕ) : Type 0 where
  pub item : Item
  pub at : st.items id ≡ some item
  pub named : item.name ≡ name
  pub content : HasContent item c
  pub childless : (k : Bytes) → view item.children k ≡ none
  pub empty : length item.ordered_array ≡ 0

-- `st'` is `st` with a new child of item `i`; all the other items are as they were.
pub record Added (st : Store) (i : ℕ) (item : Item) (name : Bytes) (c : Content) (st' : Store)
    : Type 0 where
  pub store : IsStore st'
  pub next : st'.next ≡ suc st.next
  pub others : (j : ℕ) → j ≢ i → j < st.next → st'.items j ≡ st.items j
  pub item' : Item
  pub at : st'.items i ≡ some item'
  pub body : SameBody item' item
  pub adopted : Adopted item name st.next item'
  pub fresh : IsNew st' name c st.next

append_ordered-SameBody :
    (p : Item) (c : ℕ) (p' : Item)
    → append_ordered (resize_ordered_array p) c ≡ ok p'
    → SameBody p' p
unfolding append_ordered resize_ordered_array
append_ordered-SameBody p c p' e = record {
  name = ground arith;
  type = ground arith;
  bytecode = ground arith;
  bytecode_len = ground arith;
  value = ground arith;
  parent = ground arith;
}

SameBody-children :
    {p' p : Item} (t : HashTable ℕ) → SameBody p' (record p { children = t }) → SameBody p' p
SameBody-children t b = record {
  name = b.name;
  type = b.type;
  bytecode = b.bytecode;
  bytecode_len = b.bytecode_len;
  value = b.value;
  parent = b.parent;
}

pub adopt-SameBody :
    (p : Item) (name : Bytes) (c : ℕ) (p' : Item) → adopt p name c ≡ ok p' → SameBody p' p
unfolding adopt
adopt-SameBody p name c p' e =
    let (t1, e1, h1) = Returns-of_bind (insert_hashtable p.children name c) _ e in
    let (t2, e2, h2) = Returns-of_bind (maybe_resize_hashtable t1) _ h1 in
    SameBody-children t2 (append_ordered-SameBody (record p { children = t2 }) c p' h2)

pub make_read-run :
    (st : Store) (i : ℕ) (name : Bytes) (c : Content) (p p' : Item)
    → length name ≤ 32
    → (save (record st { next = suc st.next }) st.next (read_new name i c)).items i ≡ some p
    → adopt p name st.next ≡ ok p'
    → make_read st (some i) name c
      ≡ ok
          (st.next, save (save (record st { next = suc st.next }) st.next (read_new name i c)) i p')
unfolding make_read make_item load
make_read-run st i name (plain v) p p' short got e = rw (copy_layer-short name short, got, e) refl
make_read-run st i name (code b) p p' short got e = rw (copy_layer-short name short, got, e) refl

pub read_new-IsItem : (name : Bytes) (i : ℕ) (c : Content) → IsItem (read_new name i c)
read_new-IsItem name i (plain v) = new_item-IsItem name (some i) v
read_new-IsItem name i (code b) =
    let h = new_item-IsItem name (some i) value_zero in
    record { table = h.table; by_ten = h.by_ten; bounded = h.bounded; fits = h.fits }

pub read_new-view :
    (name : Bytes) (i : ℕ) (c : Content) (k : Bytes) → view (read_new name i c).children k ≡ none
read_new-view name i (plain v) k = new_item-view name (some i) v k
read_new-view name i (code b) k = new_item-view name (some i) value_zero k

read_new-size : (name : Bytes) (i : ℕ) (c : Content) → length (read_new name i c).ordered_array ≡ 0
read_new-size name i (plain v) = new_item-size name (some i) v
read_new-size name i (code b) = new_item-size name (some i) value_zero

pub read_new-name : (name : Bytes) (i : ℕ) (c : Content) → (read_new name i c).name ≡ name
unfolding new_item
read_new-name name i (plain v) = refl
read_new-name name i (code b) = refl

read_new-HasContent : (name : Bytes) (i : ℕ) (c : Content) → HasContent (read_new name i c) c
unfolding new_item
read_new-HasContent name i (plain v) = (refl, refl)
read_new-HasContent name i (code b) = (refl, refl, refl)

-- `make_item` adds a child that is not there, and leaves the rest.
pub make_read-Added :
    (st : Store) (i : ℕ) (item : Item) (name : Bytes) (c : Content)
    → IsStore st
    → st.items i ≡ some item
    → view item.children name ≡ none
    → length item.ordered_array < 250
    → length name ≤ 32
    → Returns
        (make_read st (some i) name c)
        (λ made. (made.0 ≡ st.next) × Added st i item name c made.1)
unfolding after
make_read-Added st i p name c v at absent room short =
    let new = read_new name i c in
    let childless = read_new-view name i c in
    let fresh = read_new-IsItem name i c in
    let (p', e, a) = adopt-Adopted p name st.next (v.sound i p at) absent room in
    let lt = parent-lt st i name 0 v p p' new at a fresh childless absent in
    let st1 = save (record st { next = suc st.next }) st.next new in
    let got : st1.items i ≡ some p = ground arith in
    let st' = after st i name 0 v p p' new at a fresh childless absent in
    (
      (st.next, st'),
      make_read-run st i name c p p' short got e,
      (
        refl,
        record {
          store = after-IsStore st i name 0 v p p' new at a fresh childless absent;
          next = refl;
          others = λ j ne l. ground arith;
          item' = p';
          at = ground arith;
          body = adopt-SameBody p name st.next p' e;
          adopted = a;
          fresh = record {
            item = new;
            at = ground arith;
            named = read_new-name name i c;
            content = read_new-HasContent name i c;
            childless = childless;
            empty = read_new-size name i c;
          };
        },
      ),
    )
