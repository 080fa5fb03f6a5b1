-- ===== src/Tests/DeleteRuns.antt =====
-- Runs of the deletion of items and of their full names (src/item.c).
use sin.HashTable.Writes.{view}
use sin.HashTable.{find_entry}
use mathlib.Core.List.{flatten}
use sin.Items.Delete.Below.{IsForest}
use sin.Items.Delete.Deleted.{Deleted, delete_item-Deleted}
use sin.Items.Delete.Removal.{IsOwned, IsOrdered, count_item}
use sin.Items.Delete.{delete_item}
use sin.Items.FullName.Found.{get_itemname-find_item}
use sin.Items.FullName.{get_itemname}
use sin.Items.Names.{split_name}
use sin.Items.Valid.{edge_of}
use mathlib.Core.Path.{subst}
use sin.Items.{Item}
use sin.Outcome.{ok, Returns}
use sin.Prelude.{
  ◌≤◌, ℕ, ◌≡◌, refl, sym, ap, ◌∙◌, none, some, [], ◌∷◌, codes, str_eq, str_eq→eq, Bytes, Bool-cases,
  inl, inr, arith,
}
use sin.Tests.ItemRuns.{
  small_store, root_item, b_item, small_store-IsStore, root-IsLive, b_found, one_child, only_child,
  no_child, at_root, at_b, outside, place, some_inj,
}

only_name : (k : Bytes) (c : ℕ) → view one_child k ≡ some c → codes "b" ≡ k
unfolding view flatten find_entry
only_name k c e = elim (Bool-cases (str_eq (codes "b") k)) [
  | inl same ↦ str_eq→eq (codes "b") k same
  | inr other ↦ absurd (let e' : none ≡ some c = rw other at e in cc)
]

small_store-IsForest : IsForest small_store
small_store-IsForest = record {
  parents = λ i c k item e q. elim (place i) [
    | at_root x ↦
        (let e' = ap (λ o. edge_of o k) (sym x) ∙ e in
          let child = only_child k c e' in
          let i_root : i ≡ 0 = root_number i x in
          let is_b : b_item ≡ item = some_inj (ap small_store.items (sym child) ∙ q) in
          rw (← is_b) (rw i_root refl, only_name k c e'))
    | at_b x ↦ absurd (no_child k c (ap (λ o. edge_of o k) (sym x) ∙ e))
    | outside x ↦ absurd (let e' : none ≡ some c = ap (λ o. edge_of o k) (sym x) ∙ e in cc)
  ];
  younger = λ i c k e. elim (place i) [
    | at_root x ↦
        (let child = only_child k c (ap (λ o. edge_of o k) (sym x) ∙ e) in
          let i_root : i ≡ 0 = root_number i x in omega arith)
    | at_b x ↦ absurd (no_child k c (ap (λ o. edge_of o k) (sym x) ∙ e))
    | outside x ↦ absurd (let e' : none ≡ some c = ap (λ o. edge_of o k) (sym x) ∙ e in cc)
  ];
}
  where
    root_number : (i : ℕ) → small_store.items i ≡ some root_item → i ≡ 0
    root_number i x = ground arith

pub small_store-IsOwned : IsOwned small_store
small_store-IsOwned = record {
  forest = small_store-IsForest;
  fresh = small_store-IsStore.fresh;
  tables = λ i item q. (small_store-IsStore.sound i item q).table;
  codes = λ i item q. elim (place i) [
    | at_root x ↦ rw (← some_inj (sym x ∙ q)) (λ t. absurd cc)
    | at_b x ↦ rw (← some_inj (sym x ∙ q)) (λ t. (0 ∷ 0 ∷ 104 ∷ [], refl))
    | outside x ↦ absurd cc
  ];
}

pub small_store-IsOrdered : IsOrdered small_store
unfolding view flatten find_entry count_item str_eq
small_store-IsOrdered = record {
  children = λ j x item at held. elim (place j) [
    | at_root y ↦
        (let eq : root_item ≡ item = some_inj (sym y ∙ at) in
          let held' : 1 ≤ count_item x root_item.ordered_array =
            subst (λ (t : Item). 1 ≤ count_item x t.ordered_array) (sym eq) held in
          let only : 1 ≡ x = ground arith in
          let b_there : view one_child (codes "b") ≡ some 1 = refl in
          (codes "b", ap (λ o. edge_of o (codes "b")) y ∙ b_there ∙ ap some only))
    | at_b y ↦ absurd (
        let eq : b_item ≡ item = some_inj (sym y ∙ at) in
        let held' : 1 ≤ count_item x b_item.ordered_array =
          subst (λ (t : Item). 1 ≤ count_item x t.ordered_array) (sym eq) held in
        ground arith)
    | outside y ↦ absurd (let e' : none ≡ some item = sym y ∙ at in cc)
  ];
  once = λ j x item at. elim (place j) [
    | at_root y ↦ (let eq : root_item ≡ item = some_inj (sym y ∙ at) in rw (← eq) (ground arith))
    | at_b y ↦ (let eq : b_item ≡ item = some_inj (sym y ∙ at) in rw (← eq) (omega arith))
    | outside y ↦ absurd (let e' : none ≡ some item = sym y ∙ at in cc)
  ];
}

delete_item-Deleted_example :
    Returns (delete_item small_store 0 (codes "b")) (Deleted small_store 0 1)
unfolding split_name
delete_item-Deleted_example =
    delete_item-Deleted small_store 0 1 (codes "b") b_item small_store-IsStore small_store-IsOwned
      small_store-IsOrdered root-IsLive (omega arith, omega arith, tt) b_found refl refl

get_itemname-find_item_example : get_itemname 3 small_store 1 ≡ ok (codes "b")
unfolding split_name
get_itemname-find_item_example =
    get_itemname-find_item small_store 3 0 1 root_item (codes "b") small_store-IsStore
      small_store-IsForest refl refl (omega arith, omega arith, tt) (omega arith) (omega arith)
      b_found
