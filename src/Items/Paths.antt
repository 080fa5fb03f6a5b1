-- ===== src/Items/Paths.antt =====
-- The walks of src/item.c along a name, as paths through the children of a well-formed store.
use sin.Items.Make.{Made, make_item-Made, copy_layer-short}
use sin.Items.Names.{is_end}
use sin.Items.Valid.{IsLive, edge, IsStore, Grows, Grows-refl, Grows-trans, HasRoom, child_of-edge}
use sin.Items.Walk.{find_layers, or_make, Write, insert_layers}
use sin.Items.{Store}
use sin.Outcome.{ok, Returns}
use sin.Prelude.{
  ℕ, suc, ◌≤◌, ◌≡◌, refl, ap, ◌∙◌, false, Option, none, some, List, [], ◌∷◌, length, Bytes, arith,
  Option-cases, inl, inr,
}

-- Layers of one to 32 characters.
abbrev pub AreLayers : List Bytes → Type 0
AreLayers [] = Unit {0}
AreLayers (l ∷ ls) = (1 ≤ length l) × (length l ≤ 32) × AreLayers ls

abbrev pub path : Store → Option ℕ → List Bytes → Option ℕ
path st o [] = o
path st none (l ∷ ls) = none
path st (some i) (l ∷ ls) = path st (edge st i l) ls

pub not_end : (l : Bytes) (rest : List Bytes) → 1 ≤ length l → is_end l rest ≡ false
not_end [] rest h = absurd (omega arith)
not_end (c ∷ l) rest h = refl

pub path-none : (st : Store) (ls : List Bytes) → path st none ls ≡ none
path-none st [] = refl
path-none st (l ∷ ls) = refl

-- A search along layers finds the end of their path.
pub find_layers-path :
    (st : Store) (i : ℕ) (ls : List Bytes)
    → IsStore st
    → IsLive st i
    → AreLayers ls
    → find_layers st (some i) ls ≡ ok (path st (some i) ls)
unfolding find_layers
find_layers-path st i [] v live h = refl
find_layers-path st i (l ∷ ls) v live (some_char, short, h) =
    rw (not_end l ls some_char, copy_layer-short l short, child_of-edge st i l v live)
      (elim (Option-cases (edge st i l)) [
        | inl e ↦ rw e (no_more ls)
        | inr (c, e) ↦ rw e (find_layers-path st c ls v (v.closed i l c e) h)
      ])
  where
    no_more : (ls : List Bytes) → find_layers st none ls ≡ ok (path st none ls)
    no_more [] = refl
    no_more (l ∷ ls) = refl

some_number : {a b : ℕ} → some a ≡ some b → a ≡ b
some_number e = cc

-- What a path leads to is live.
pub path-IsLive :
    {st : Store} (a b : ℕ) (ls : List Bytes)
    → IsStore st
    → IsLive st a
    → path st (some a) ls ≡ some b
    → IsLive st b
path-IsLive a b [] v live e = rw (← some_number e) live
path-IsLive {st} a b (l ∷ ls) v live e = elim (Option-cases (edge st a l)) [
  | inl n ↦ absurd (let h = path-none st ls in let e' : path st none ls ≡ some b = rw n at e in cc)
  | inr (c, m) ↦ path-IsLive c b ls v (v.closed a l c m) (rw m at e)
]

-- A path stays one in a store that has grown.
pub path-Grows :
    {st st' : Store} (i j : ℕ) (ls : List Bytes)
    → Grows st st'
    → path st (some i) ls ≡ some j
    → path st' (some i) ls ≡ some j
path-Grows i j [] g e = e
path-Grows {st} {st'} i j (l ∷ ls) g e = elim (Option-cases (edge st i l)) [
  | inl n ↦ absurd (let e' : path st none ls ≡ some j = rw n at e in let h = path-none st ls in cc)
  | inr (c, m) ↦ rw (g.edges i l c m) (path-Grows c j ls g (rw m at e))
]

-- Where a walk of `insert_item` ends, in a store that may have grown on the way.
pub record Walked (write : Write) (st : Store) (i : ℕ) (ls : List Bytes) : Type 0 where
  pub target : ℕ
  pub grown : Store
  pub store : IsStore grown
  pub grows : Grows st grown
  pub live : IsLive grown target
  pub ends : path grown (some i) ls ≡ some target
  pub runs : insert_layers write st i ls ≡ write grown target

-- One layer: the child that is there, or a new one.
pub or_make-Made :
    (st : Store) (i : ℕ) (l : Bytes) (n : ℕ)
    → IsStore st
    → IsLive st i
    → HasRoom st (suc n)
    → length l ≤ 32
    → Returns (or_make st i l (edge st i l)) (λ made. Made st i l n made.0 made.1)
or_make-Made st i l n v live room short = elim (Option-cases (edge st i l)) [
  | inl e ↦ rw e (make_item-Made st i l n _ v live e room short)
  | inr (c, e) ↦ rw e (
    (c, st),
    refl,
    record {
      store = v;
      grows = Grows-refl st;
      placed = e;
      live = v.closed i l c e;
      room = λ j item q. omega (arith, room j item q);
    },
  )
]

pub insert_layers-Walked :
    (write : Write) (st : Store) (i : ℕ) (ls : List Bytes)
    → IsStore st
    → IsLive st i
    → HasRoom st (length ls)
    → AreLayers ls
    → 1 ≤ length ls
    → Walked write st i ls
unfolding insert_layers
insert_layers-Walked write st i [] v live room h nonempty = absurd (omega arith)
insert_layers-Walked write st i (l ∷ []) v live room (some_char, short, h) nonempty =
    let ((c, st1), e, m) = or_make-Made st i l 0 v live room short in
    record {
      target = c;
      grown = st1;
      store = m.store;
      grows = m.grows;
      live = m.live;
      ends = m.placed;
      runs =
          rw (not_end l [] some_char, copy_layer-short l short, child_of-edge st i l v live, e)
            refl;
    }
insert_layers-Walked write st i (l ∷ l' ∷ ls) v live room (some_char, short, h) nonempty =
    let ((c, st1), e, m) = or_make-Made st i l (length (l' ∷ ls)) v live room short in
    let w = insert_layers-Walked write st1 c (l' ∷ ls) m.store m.live m.room h (omega arith) in
    record {
      target = w.target;
      grown = w.grown;
      store = w.store;
      grows = Grows-trans m.grows w.grows;
      live = w.live;
      ends = ap (λ o. path w.grown o (l' ∷ ls)) (w.grows.edges i l c m.placed) ∙ w.ends;
      runs =
          rw
            (
              not_end l (l' ∷ ls) some_char,
              copy_layer-short l short,
              child_of-edge st i l v live,
              e,
            )
            w.runs;
    }
