-- ===== src/Interpret/Locals/Frame.antt =====
-- Local variables (src/interpret.c) as values counted from the bottom of the stack.
use sin.Interpret.Code.{byte_at}
use sin.Interpret.Locals.{
  local_index, change_local, op_inclocal, op_declocal, op_savelocal, op_getlocal,
}
use sin.Outcome.{ok}
use sin.Prelude.Int.{pos, sub_ℕ, ◌+ℤ◌}
use sin.Prelude.{
  ℕ, suc, ◌+◌, ◌%◌, ◌<◌, ◌≡◌, refl, ap, ◌∙◌, List, [], ◌∷◌, arith, length, ◌==◌, if◌then◌else◌,
  Bytes,
}
use sin.Stack.Contents.{
  Registers, Holds, contents, next_top, lower_top, write_cell-eq, read_cell-eq, pushed,
  pushed-Holds, read_top,
}
use sin.Stack.{Stack, stack_size, update}
use sin.Value.{Value, int_value}
use sin.Word.{add64, sub64}

-- Cell `k` of a stack that holds `xs`, and the values after a write to it.
abbrev pub at_cell : List Value → ℕ → Value → Value
at_cell [] k d = d
at_cell (x ∷ xs) k d = if length xs == k then x else at_cell xs k d

abbrev pub set_cell : List Value → ℕ → Value → List Value
set_cell [] k v = []
set_cell (x ∷ xs) k v = (if length xs == k then v else x) ∷ set_cell xs k v

pub length-set_cell : (xs : List Value) (k : ℕ) (v : Value) → length (set_cell xs k v) ≡ length xs
length-set_cell [] k v = refl
length-set_cell (x ∷ xs) k v = ap suc (length-set_cell xs k v)

contents-at_cell :
    (f : ℕ → Value) (xs : List Value) (k : ℕ) (d : Value)
    → contents f (length xs) ≡ xs
    → k < length xs
    → f k ≡ at_cell xs k d
contents-at_cell f [] k d e lt = absurd (omega arith)
contents-at_cell f (x ∷ xs) k d e lt = ground (arith, contents-at_cell f xs k d)

contents-set_cell :
    (f : ℕ → Value) (xs : List Value) (k : ℕ) (v : Value)
    → contents f (length xs) ≡ xs
    → contents (update f k v) (length xs) ≡ set_cell xs k v
contents-set_cell f [] k v e = refl
contents-set_cell f (x ∷ xs) k v e = ground (arith, contents-set_cell f xs k v)

pub at_cell-set_cell :
    (xs : List Value) (k : ℕ) (v d : Value) → k < length xs → at_cell (set_cell xs k v) k d ≡ v
at_cell-set_cell [] k v d lt = absurd (omega arith)
at_cell-set_cell (x ∷ xs) k v d lt =
    ground (arith, length-set_cell xs k v, at_cell-set_cell xs k v d)

-- Local `i` of a frame at `b`: the index is cut to 8 bits.
abbrev pub cell_of : ℕ → ℕ → ℕ
cell_of b i = (i + b) % 256

local_index-cell_of :
    (code : Bytes) (nextop i b : ℕ) (s : Stack)
    → byte_at code nextop ≡ ok i
    → s.base ≡ pos b
    → local_index code nextop s ≡ ok (cell_of b i)
unfolding local_index ◌+ℤ◌
local_index-cell_of code nextop i b s operand based = ground arith

read_local :
    {r : Registers} (xs : List Value) (k : ℕ) {s : Stack}
    → Holds r xs s
    → k < length xs
    → s.cells k ≡ at_cell xs k (int_value 0)
read_local xs k {s} h lt = contents-at_cell s.cells xs k (int_value 0) h.values lt

write_local :
    {r : Registers} (xs : List Value) (k : ℕ) (v : Value) {s : Stack}
    → Holds r xs s
    → Holds r (set_cell xs k v) (record s { cells = update s.cells k v })
write_local xs k v {s} h = record {
  limit = h.limit;
  top = rw length-set_cell (h.top);
  fits = rw length-set_cell (h.fits);
  values = rw length-set_cell (contents-set_cell s.cells xs k v h.values);
  frame = h.frame;
}

module _ {r : Registers} (code : Bytes) (nextop i b : ℕ) (operand : byte_at code nextop ≡ ok i)
    (based : r.base ≡ pos b) where
  index-eq :
      (xs : List Value) {s : Stack} → Holds r xs s → local_index code nextop s ≡ ok (cell_of b i)
  index-eq xs {s} h = local_index-cell_of code nextop i b s operand (ground (arith, h.frame))

  module _ (xs : List Value) {s : Stack} where
    -- `op_getlocal` pushes the cell of the local.
    pub op_getlocal-Holds :
        Holds r xs s
        → cell_of b i < length xs
        → length xs < stack_size
        → (s' : Stack) × (op_getlocal code nextop s ≡ ok (nextop + 1, s'))
          × Holds r (at_cell xs (cell_of b i) (int_value 0) ∷ xs) s'
    unfolding op_getlocal
    op_getlocal-Holds h lt room =
        let k = cell_of b i in
        let small : k < stack_size = omega (arith, h.fits) in
        (
          pushed s (length xs) (s.cells k),
          rw (index-eq xs h, next_top xs h, read_cell-eq _ k small, write_cell-eq _ _ _ room) refl,
          rw (← read_local xs k h lt) (pushed-Holds xs (s.cells k) h room),
        )

    -- `op_savelocal` moves the top into the cell of the local, and leaves a copy above the new top.
    pub op_savelocal-Holds :
        (v : Value)
        → Holds r (v ∷ xs) s
        → cell_of b i < length xs
        → (s' : Stack) × (op_savelocal code nextop s ≡ ok (nextop + 1, s'))
          × Holds r (set_cell xs (cell_of b i) v) s'
          × (s'.cells (cell_of b i) ≡ v)
          × (s'.cells (length xs) ≡ v)
    unfolding op_savelocal
    op_savelocal-Holds v h lt =
        let k = cell_of b i in
        let small : k < stack_size = omega (arith, h.fits) in
        let stored = write_local (v ∷ xs) k v h in
        (
          record s { current = sub_ℕ (length xs) 1; cells = update s.cells k v },
          rw
              (
                index-eq (v ∷ xs) h,
                read_cell-eq _ k small,
                read_top v xs h,
                write_cell-eq _ k v small,
                lower_top v xs h,
              )
              refl,
          record {
            limit = h.limit;
            top = rw length-set_cell refl;
            fits = rw length-set_cell (omega (arith, h.fits));
            values = ground (arith, stored.values, length-set_cell xs k v);
            frame = h.frame;
          },
          ground arith,
          ground (arith, h.values),
        )

    change_local-Holds :
        (f : ℕ → ℕ) (w : ℕ)
        → Holds r xs s
        → cell_of b i < length xs
        → at_cell xs (cell_of b i) (int_value 0) ≡ int_value w
        → (s' : Stack) × (change_local f code nextop s ≡ ok (nextop + 1, s'))
          × Holds r (set_cell xs (cell_of b i) (int_value (f w))) s'
    unfolding change_local
    change_local-Holds f w h lt e =
        let k = cell_of b i in
        let small : k < stack_size = omega (arith, h.fits) in
        let e' : s.cells k ≡ int_value w = read_local xs k h lt ∙ e in
        (
          _,
          rw (index-eq xs h, read_cell-eq _ k small, e', write_cell-eq _ k _ small) refl,
          write_local xs k (int_value (f w)) h,
        )

    -- `op_inclocal` and `op_declocal` count an int local up and down, modulo 2 ^ 64.
    pub op_inclocal-Holds :
        (w : ℕ)
        → Holds r xs s
        → cell_of b i < length xs
        → at_cell xs (cell_of b i) (int_value 0) ≡ int_value w
        → ((s' : Stack) × (op_inclocal code nextop s ≡ ok (nextop + 1, s'))
            × Holds r (set_cell xs (cell_of b i) (int_value (add64 w 1))) s')
          × ((s' : Stack) × (op_declocal code nextop s ≡ ok (nextop + 1, s'))
              × Holds r (set_cell xs (cell_of b i) (int_value (sub64 w 1))) s')
    unfolding op_inclocal op_declocal
    op_inclocal-Holds w h lt e =
        (change_local-Holds (λ j. add64 j 1) w h lt e, change_local-Holds (λ j. sub64 j 1) w h lt e)
