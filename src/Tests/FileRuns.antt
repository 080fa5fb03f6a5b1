-- ===== src/Tests/FileRuns.antt =====
-- Runs of the item store in a file (src/item.c).
use sin.Items.File.Reload.{load-save}
use sin.Items.File.Trees.{
  Tree, node, end, tree, depth, IsTree, is_tree, are_none, are_more, Shows, shows, shows_none,
  shows_more, Alike,
}
use sin.Items.File.{plain, code, save_itemstore, load_itemstore}
use sin.Items.Paths.{path}
use sin.Items.Valid.{IsStore}
use sin.Outcome.{Returns, ◌>>=◌}
use sin.Prelude.{ℕ, ◌≡◌, refl, some, List, [], ◌∷◌, Bytes, codes, arith}
use sin.Tests.ItemRuns.{small_store, root_item, b_item, small_store-IsStore}
use sin.Value.{int_value}
use mathlib.Core.List.{flatten}

abbrev b_tree : Tree
b_tree = node (codes "b") (code (0 ∷ 0 ∷ 104 ∷ [])) end

abbrev small_tree : Tree
small_tree = node [] (plain (int_value 0)) (tree b_tree end)

b_shown : Shows small_store 1 b_tree
unfolding flatten
b_shown = shows b_item refl refl (refl, refl, refl) shows_none

small_shown : Shows small_store 0 small_tree
unfolding flatten
small_shown = shows root_item refl refl (refl, refl) (shows_more refl b_shown shows_none)

small_IsTree : IsTree small_tree
small_IsTree = is_tree tt (omega arith) (omega arith) (omega arith) (
    are_more (is_tree (λ e. omega arith, tt) (omega arith) (omega arith) (omega arith) are_none) tt
      are_none)

load-save_example :
    Returns
      (save_itemstore 2 small_store 0 >>= λ file. load_itemstore small_store (some file))
      (λ out.
        (root' : ℕ) × (out.0 ≡ some root')
        × IsStore out.1
        × ((l : Bytes) (ls : List Bytes)
            → Alike small_store out.1
                (path small_store (some 0) (l ∷ ls))
                (path out.1 (some root') (l ∷ ls))))
load-save_example =
    load-save 2 small_store small_store 0 small_tree small_shown small_IsTree
      (unfold depth in omega arith) small_store-IsStore
