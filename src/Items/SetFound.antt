-- ===== src/Items/SetFound.antt =====
-- `set_item` of src/item.c on an item that is there.
use sin.Items.Insert.{Found, Found-save}
use sin.Items.Names.{split_name}
use sin.Items.Paths.{AreLayers, path-IsLive}
use sin.Items.Save.{SameLinks}
use sin.Items.Valid.{IsLive, IsStore, Grows-refl}
use sin.Items.Walk.{find_item, set_item}
use sin.Items.{Item, Store, load, save}
use sin.Items.Insert.{find_item-path}
use sin.Outcome.{ok, Returns}
use sin.Prelude.{ℕ, ◌≡◌, ◌∙◌, sym, refl, some, Option, Bytes}
use sin.Value.{Value}

-- The item keeps all but its value, and the others are as they were.
pub record Written (st : Store) (root : ℕ) (name : Bytes) (i : ℕ) (v : Value) (st' : Store)
    : Type 0 where
  pub item : Item
  pub old : st.items i ≡ some item
  pub found : Found st root name i (record item { value = v }) st'
  pub same : st' ≡ save st i (record item { value = v })

set_found-run :
    (st : Store) (root i : ℕ) (name : Bytes) (v : Value) (item : Item)
    → find_item st root name ≡ ok (some i)
    → st.items i ≡ some item
    → set_item st root name v ≡ ok (save st i (record item { value = v }))
unfolding set_item load
set_found-run st root i name v item found at = rw (found, at) refl

pub set_item-Written :
    (st : Store) (root i : ℕ) (name : Bytes) (v : Value)
    → IsStore st
    → IsLive st root
    → AreLayers (split_name name)
    → find_item st root name ≡ ok (some i)
    → Returns (set_item st root name v) (Written st root name i v)
set_item-Written st root i name v valid live layers found =
    let walked = find_item-path st root name valid live layers in
    let (item, at) = path-IsLive root i (split_name name) valid live (led (sym walked ∙ found)) in
    let same : SameLinks (record item { value = v }) item = record {
      table = refl;
      array = refl;
      name = refl;
      parent = refl;
      capacity = refl;
    } in
    let here : Found st root name i item st = record {
      store = valid;
      grows = Grows-refl st;
      found = found;
      at = at;
    } in
    (
      save st i (record item { value = v }),
      set_found-run st root i name v item found at,
      record {
        item = item;
        old = at;
        found = Found-save st st root name i item (record item { value = v }) live layers here same;
        same = refl;
      },
    )
  where
    led : {o : Option ℕ} → ok o ≡ ok (some i) → o ≡ some i
    led e = cc
