-- ===== src/Items/Valid.antt =====
-- A well-formed store of items (src/item.c), and the map from names to items that it stands for.
use sin.HashTable.Map.{insert_hashtable-Models, maybe_resize_hashtable-Models}
use sin.HashTable.Writes.{IsHashTable, view, update, search_hashtable-view}
use sin.Items.Walk.{child_of}
use sin.Items.{
  Item, Store, load, resize_ordered_array, append_ordered, adopt, item_array_init_capacity,
}
use sin.Outcome.{ok, Returns}
use sin.Prelude.{
  ℕ, ◌+◌, ◌%◌, ◌≤◌, ◌<◌, ◌≡◌, ◌∙◌, Option, none, some, [], ◌∷◌, ◌++◌, length, length-append, leb,
  if◌then◌else◌, Bytes, arith,
}

abbrev pub IsLive : Store → ℕ → Type 0
IsLive st i = (item : Item) × (st.items i ≡ some item)

-- The child of item `i` at a layer.
abbrev pub edge_of : Option Item → Bytes → Option ℕ
edge_of none k = none
edge_of (some item) k = view item.children k

abbrev pub edge : Store → ℕ → Bytes → Option ℕ
edge st i k = edge_of (st.items i) k

-- An item whose table is one, and whose array of children has grown by tens.
pub record IsItem (item : Item) : Type 0 where
  pub table : IsHashTable item.children
  pub by_ten : item.ordered_capacity % 10 ≡ 0
  pub bounded : item.ordered_capacity ≤ 250
  pub fits : length item.ordered_array ≤ item.ordered_capacity

-- Every child is live, and the numbers from `next` on are free.
pub record IsStore (st : Store) : Type 0 where
  pub fresh : (i : ℕ) → st.next ≤ i → st.items i ≡ none
  pub sound : (i : ℕ) (item : Item) → st.items i ≡ some item → IsItem item
  pub closed : (i : ℕ) (k : Bytes) (c : ℕ) → edge st i k ≡ some c → IsLive st c

-- Every child of `st` is one of `st'`, and every item lives on.
pub record Grows (st st' : Store) : Type 0 where
  pub edges : (i : ℕ) (k : Bytes) (c : ℕ) → edge st i k ≡ some c → edge st' i k ≡ some c
  pub lives : (i : ℕ) → IsLive st i → IsLive st' i

-- Every item has room for `n` more children.
abbrev pub HasRoom : Store → ℕ → Type 0
HasRoom st n = (i : ℕ) (item : Item) → st.items i ≡ some item → length item.ordered_array + n ≤ 250

pub Grows-refl : (st : Store) → Grows st st
Grows-refl st = record { edges = λ i k c e. e; lives = λ i l. l }

pub Grows-trans : {a b c : Store} → Grows a b → Grows b c → Grows a c
Grows-trans g h = record {
  edges = λ i k c e. h.edges i k c (g.edges i k c e);
  lives = λ i l. h.lives i (g.lives i l);
}

pub child_of-edge :
    (st : Store) (i : ℕ) (k : Bytes) → IsStore st → IsLive st i → child_of st i k ≡ ok (edge st i k)
unfolding child_of load
child_of-edge st i k v (item, e) =
    rw e (search_hashtable-view item.children k (v.sound i item e).table.sound)

-- What `adopt` makes of an item that has no child of that name.
pub record Adopted (p : Item) (name : Bytes) (child : ℕ) (p' : Item) : Type 0 where
  pub item : IsItem p'
  pub reads : (k : Bytes) → view p'.children k ≡ update (view p.children) name (some child) k
  pub size : length p'.ordered_array ≡ length p.ordered_array + 1

pub adopt-Adopted :
    (p : Item) (name : Bytes) (child : ℕ)
    → IsItem p
    → view p.children name ≡ none
    → length p.ordered_array < 250
    → Returns (adopt p name child) (Adopted p name child)
unfolding adopt resize_ordered_array append_ordered
adopt-Adopted p name child v absent room =
    let (t1, e1, ((v1, r1), s1)) = insert_hashtable-Models p.children name child v.table absent in
    let (t2, e2, (v2, r2)) = maybe_resize_hashtable-Models t1 v1 in
    let len = length-append p.ordered_array (child ∷ []) in
    let ten = v.by_ten in
    let bound = v.bounded in
    let fits = v.fits in
    let n = length p.ordered_array in
    let grown = (p.ordered_capacity + item_array_init_capacity) % 256 in
    let capacity = if leb p.ordered_capacity n then grown else p.ordered_capacity in
    (
      record p {
        children = t2;
        ordered_capacity = capacity;
        ordered_array = p.ordered_array ++ (child ∷ []);
      },
      rw (e1, e2) (ground arith),
      record {
        item = record {
          table = v2;
          by_ten = ground arith;
          bounded = ground arith;
          fits = ground arith;
        };
        reads = λ k. r2 k ∙ r1 k;
        size = len;
      },
    )
