-- ===== src/Items/Delete/Walks.antt =====
-- What `insert_item` and `insert_code_item` (src/item.c) keep of a store along the layers of a name.
use sin.Items.Make.{copy_layer-short}
use sin.Items.Paths.{AreLayers, not_end, or_make-Made}
use sin.Items.Valid.{IsLive, edge, IsStore, HasRoom, child_of-edge}
use sin.Items.Walk.{or_make, Write, insert_layers}
use sin.Items.{Store}
use sin.Outcome.{ok, Returns}
use sin.Prelude.{ℕ, suc, ◌≤◌, ◌≡◌, Option, List, [], ◌∷◌, length, Bytes}

-- What a write at the end of a walk keeps, where it ends so.
abbrev pub Keeps : (Store → Type 0) → Write → (Option ℕ → Store → Type 0) → Type 0
Keeps P write Ends =
    (st : Store) (i : ℕ) (r : Option ℕ) (st' : Store)
    → P st
    → IsLive st i
    → write st i ≡ ok (r, st')
    → Ends r st'
    → P st'

-- What one layer of a walk keeps.
abbrev pub LayerKeeps : (Store → Type 0) → Type 0
LayerKeeps P =
    (st : Store) (i : ℕ) (l : Bytes) (n : ℕ)
    → IsStore st
    → P st
    → IsLive st i
    → HasRoom st (suc n)
    → length l ≤ 32
    → Returns (or_make st i l (edge st i l)) (λ made. P made.1)

-- What each layer and the write keep, the walk keeps.
pub insert_layers-Keeps :
    (P : Store → Type 0) (write : Write) (Ends : Option ℕ → Store → Type 0) (st : Store) (i : ℕ)
    (ls : List Bytes) (r : Option ℕ) (st' : Store)
    → LayerKeeps P
    → Keeps P write Ends
    → IsStore st
    → P st
    → IsLive st i
    → HasRoom st (length ls)
    → AreLayers ls
    → insert_layers write st i ls ≡ ok (r, st')
    → Ends r st'
    → P st'
unfolding insert_layers
insert_layers-Keeps P write Ends st i [] r st' makes keeps v o live room h e ends =
    let same : st ≡ st' = cc in rw (← same) o
insert_layers-Keeps P write Ends st i (l ∷ []) r st' makes keeps v o live room (some_char, short, h)
      e ends =
    let ((c, st1), run, m) = or_make-Made st i l 0 v live room short in
    let (made, run', kept) = makes st i l 0 v o live room short in
    let same : made ≡ (c, st1) = cc in
    let o1 : P st1 = rw same at kept in
    let e1 : write st1 c ≡ ok (r, st') =
      rw (not_end l [] some_char, copy_layer-short l short, child_of-edge st i l v live, run) at
        e in
    keeps st1 c r st' o1 m.live e1 ends
insert_layers-Keeps P write Ends st i (l ∷ l' ∷ ls) r st' makes keeps v o live room
      (some_char, short, h) e ends =
    let ((c, st1), run, m) = or_make-Made st i l (length (l' ∷ ls)) v live room short in
    let (made, run', kept) = makes st i l (length (l' ∷ ls)) v o live room short in
    let same : made ≡ (c, st1) = cc in
    let o1 : P st1 = rw same at kept in
    let e1 : insert_layers write st1 c (l' ∷ ls) ≡ ok (r, st') =
      rw (not_end l (l' ∷ ls) some_char, copy_layer-short l short, child_of-edge st i l v live, run)
        at e in
    insert_layers-Keeps P write Ends st1 c (l' ∷ ls) r st' makes keeps m.store o1 m.live m.room h e1
      ends
