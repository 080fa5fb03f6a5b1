-- ===== src/Items/FullName/Found.antt =====
-- The full name of an item that was found (`get_itemname` against `find_item` of src/item.c).
use sin.Items.Delete.Below.{IsForest}
use sin.Items.FullName.{get_itemname}
use sin.Items.Insert.{find_item-path, split_name-nonempty}
use sin.Items.Names.{max_item_name, split_name, in_first, dot}
use sin.Items.Paths.{AreLayers, path, path-none}
use sin.Items.Valid.{IsStore, edge}
use sin.Items.Walk.{find_item}
use sin.Items.{Item, Store, load}
use sin.Outcome.{ok}
use sin.Prelude.{
  ℕ, suc, ◌+◌, ◌-◌, ◌≤◌, ◌<◌, ◌≡◌, refl, ap, ◌∙◌, none, some, List, [], ◌∷◌, ◌++◌, length,
  length-append, lt→ltb, ◌==◌, Bytes, Bool-cases, Option-cases, inl, inr, arith,
}

-- Layers behind the first, each with its dot.
dotted : List Bytes → Bytes
dotted [] = []
dotted (l ∷ ls) = dot ∷ (l ++ dotted ls)

joined : List Bytes → Bytes
joined [] = []
joined (l ∷ ls) = l ++ dotted ls

append_assoc : (a b c : Bytes) → (a ++ b) ++ c ≡ a ++ (b ++ c)
append_assoc [] b c = refl
append_assoc (x ∷ a) b c = ap (λ (l : Bytes). x ∷ l) (append_assoc a b c)

append_nil : (a : Bytes) → a ++ [] ≡ a
append_nil [] = refl
append_nil (x ∷ a) = ap (λ (l : Bytes). x ∷ l) (append_nil a)

-- The pieces of a name make the name.
joined-split_name : (name : Bytes) → joined (split_name name) ≡ name
unfolding split_name joined dotted
joined-split_name [] = refl
joined-split_name (c ∷ cs) = elim (Bool-cases (c == dot)) [
  | inl e ↦
      rw e
        (dot_first (split_name cs) (split_name-nonempty cs) (joined-split_name cs) (ground arith))
  | inr e ↦ rw e (char_first (split_name cs) (split_name-nonempty cs) (joined-split_name cs))
]
  where
    dot_first : (ls : List Bytes) → 1 ≤ length ls → joined ls ≡ cs → c ≡ dot → dotted ls ≡ c ∷ cs
    dot_first [] h e q = absurd (omega arith)
    dot_first (l ∷ ls) h e q = rw (q, ← e) refl

    char_first :
        (ls : List Bytes) → 1 ≤ length ls → joined ls ≡ cs → joined (in_first c ls) ≡ c ∷ cs
    char_first [] h e = absurd (omega arith)
    char_first (l ∷ ls) h e = ap (λ (t : Bytes). c ∷ t) e

module _ (st : Store) (v : IsStore st) (f : IsForest st) where
  -- One layer further down.
  named_child :
      (n a g c : ℕ) (prefix l : Bytes) (item_a : Item)
      → st.items a ≡ some item_a
      → item_a.parent ≡ some g
      → get_itemname n st a ≡ ok prefix
      → edge st a l ≡ some c
      → length (prefix ++ (dot ∷ l)) < max_item_name
      → get_itemname (suc n) st c ≡ ok (prefix ++ (dot ∷ l))
  unfolding get_itemname load
  named_child n a g c prefix l item_a at parent above e short =
      let (item, at') = v.closed a l c e in
      let (p, name) = f.parents a c l item e at' in
      let fits = lt→ltb (length (prefix ++ (dot ∷ l))) max_item_name short in
      rw (at', p, at, parent, above, name, fits) refl

  named_below :
      (fuel n a g i : ℕ) (prefix : Bytes) (ls : List Bytes) (item_a : Item)
      → fuel ≡ length ls + n
      → st.items a ≡ some item_a
      → item_a.parent ≡ some g
      → get_itemname n st a ≡ ok prefix
      → path st (some a) ls ≡ some i
      → length (prefix ++ dotted ls) < max_item_name
      → get_itemname fuel st i ≡ ok (prefix ++ dotted ls)
  unfolding dotted
  named_below fuel n a g i prefix [] item_a enough at parent above e short =
      let same : a ≡ i = cc in
      let q : fuel ≡ n = omega arith in rw (← same, append_nil prefix, q) above
  named_below fuel n a g i prefix (l ∷ ls) item_a enough at parent above e short =
      elim (Option-cases (edge st a l)) [
        | inl m ↦
            absurd (let h = path-none st ls in let e' : path st none ls ≡ some i = rw m at e in cc)
        | inr (c, m) ↦
            let split = append_assoc prefix (dot ∷ l) (dotted ls) in
            let sizes = length-append (prefix ++ (dot ∷ l)) (dotted ls) in
            let whole : length ((prefix ++ (dot ∷ l)) ++ dotted ls) < max_item_name =
              rw split short in
            let (item, at') = v.closed a l c m in
            let (p, name) = f.parents a c l item m at' in
            let named = named_child n a g c prefix l item_a at parent above m (omega arith) in
            rw (← split) (
              named_below fuel (suc n) c a i (prefix ++ (dot ∷ l)) ls item (omega arith) at' p named
                (rw m at e) whole)
      ]

  -- The full name of the item at the end of a path.
  get_itemname-path :
      (fuel root i : ℕ) (r : Item) (l : Bytes) (ls : List Bytes)
      → suc (length ls) ≤ fuel
      → st.items root ≡ some r
      → r.parent ≡ none
      → path st (some root) (l ∷ ls) ≡ some i
      → length (joined (l ∷ ls)) < max_item_name
      → get_itemname fuel st i ≡ ok (joined (l ∷ ls))
  unfolding joined get_itemname load
  get_itemname-path fuel root i r l ls deep at top e short = elim (Option-cases (edge st root l)) [
    | inl m ↦
        absurd (let h = path-none st ls in let e' : path st none ls ≡ some i = rw m at e in cc)
    | inr (c, m) ↦
        let (item, at') = v.closed root l c m in
        let (p, name) = f.parents root c l item m at' in
        let sizes = length-append l (dotted ls) in
        let fits = lt→ltb (length l) max_item_name (omega arith) in
        let first : get_itemname (suc (fuel - suc (length ls))) st c ≡ ok l =
          rw (at', p, at, top, name, fits) refl in
        named_below fuel (suc (fuel - suc (length ls))) c root i l ls item (omega arith) at' p first
          (rw m at e) short
  ]

  joined-path :
      (fuel root i : ℕ) (r : Item) (ls : List Bytes)
      → 1 ≤ length ls
      → length ls ≤ fuel
      → st.items root ≡ some r
      → r.parent ≡ none
      → path st (some root) ls ≡ some i
      → length (joined ls) < max_item_name
      → get_itemname fuel st i ≡ ok (joined ls)
  joined-path fuel root i r [] some_layer deep at top e short = absurd (omega arith)
  joined-path fuel root i r (l ∷ ls) some_layer deep at top e short =
      get_itemname-path fuel root i r l ls deep at top e short

-- The full name of an item that was found under a name is that name, where the name fits the buffer.
pub get_itemname-find_item :
    (st : Store) (fuel root i : ℕ) (r : Item) (name : Bytes)
    → IsStore st
    → IsForest st
    → st.items root ≡ some r
    → r.parent ≡ none
    → AreLayers (split_name name)
    → length (split_name name) ≤ fuel
    → length name < max_item_name
    → find_item st root name ≡ ok (some i)
    → get_itemname fuel st i ≡ ok name
get_itemname-find_item st fuel root i r name v f at top layers deep short found =
    let whole = joined-split_name name in
    let walked = find_item-path st root name v (r, at) layers in
    let led : path st (some root) (split_name name) ≡ some i = cc in
    joined-path st v f fuel root i r (split_name name) (split_name-nonempty name) deep at top led
      (rw whole short)
    ∙ ap ok whole
