-- ===== src/Items/FullName.antt =====
-- `get_itemname` and `get_itemfilename` of src/item.c.
pub mod Found
use sin.Items.Names.{dot, max_item_name}
use sin.Items.{Item, Store, load}
use sin.Outcome.{Outcome, ok, undefined, ◌>>=◌, from_option}
use sin.Prelude.{
  ℕ, zero, suc, Option, none, some, List, [], ◌∷◌, ◌++◌, length, ltb, ◌==◌, if◌then◌else◌, Bytes,
  codes,
}

-- What is written to the buffer has to fit, with its null.
abbrev pub fit : Bytes → Outcome Bytes
fit name = if ltb (length name) max_item_name then ok name else undefined

abbrev pub full_name_by : (ℕ → Outcome Bytes) → ℕ → Bytes → Option ℕ → Outcome Bytes
full_name_by above parent name none = fit name
full_name_by above parent name (some grandparent) = do
  prefix ← above parent
  fit (prefix ++ (dot ∷ name))

-- The walk up to the child of the root; the first argument bounds the depth.
unfoldable pub get_itemname : ℕ → Store → ℕ → Outcome Bytes
get_itemname zero st i = undefined
get_itemname (suc fuel) st i = do
  item ← load st i
  parent ← from_option item.parent
  p ← load st parent
  full_name_by (get_itemname fuel st) parent item.name p.parent

-- `if(*p == '.') *p = '/'`
unfoldable pub slashes : Bytes → Bytes
slashes [] = []
slashes (c ∷ cs) = (if c == dot then 47 else c) ∷ slashes cs

unfoldable pub get_itemfilename : Bytes → Store → ℕ → Outcome Bytes
unfolding slashes
get_itemfilename srcroot st i = do
  name ← get_itemname st.next st i
  ok (srcroot ++ (47 ∷ (slashes name ++ codes "/source.sin")))
