-- ===== src/Stack/Contents.antt =====
-- The stack of src/stack.c as a bounded list of values, its top first.
use sin.Outcome.{ok, raised, Returns}
use sin.Prelude.{ℕ, zero, suc, ◌-◌, ◌≤◌, ◌<◌, ◌≡◌, refl, List, [], ◌∷◌, arith, length}
use sin.Prelude.Int.{ℤ, pos, sub_ℕ, ◌+ℤ◌, ◌-ℤ◌}
use sin.Stack.{
  Stack, stack_size, update, read_cell, write_cell, push_stack, pop_stack, throwaway_stack,
  peek_stack, size_stack,
}
use sin.Value.{Value, nil}

-- The first `n` cells, the last one first.
abbrev pub contents : (ℕ → Value) → ℕ → List Value
contents f zero = []
contents f (suc n) = f n ∷ contents f n

pub contents-update :
    (n i : ℕ) (f : ℕ → Value) (v : Value) → n ≤ i → contents (update f i v) n ≡ contents f n
contents-update zero i f v h = refl
contents-update (suc n) i f v h = ground (arith, contents-update n i f v)

-- What a call frame keeps of the stack beside its values.
pub record Registers : Type 0 where
  pub base : ℤ
  pub locals : ℕ
  pub params : ℕ

abbrev pub registers : Stack → Registers
registers s = record { base = s.base; locals = s.locals; params = s.params }

-- `s` holds the values `xs`, the top first, under the registers `r`.
pub record Holds (r : Registers) (xs : List Value) (s : Stack) : Type 0 where
  pub limit : s.max ≡ pos (stack_size - 1)
  pub top : s.current ≡ sub_ℕ (length xs) 1
  pub fits : length xs ≤ stack_size
  pub values : contents s.cells (length xs) ≡ xs
  pub frame : registers s ≡ r

abbrev pub pushed : Stack → ℕ → Value → Stack
pushed s n v = record s { current = pos n; cells = update s.cells n v }

-- The stack after its top, cell `n`, was taken: the cell keeps its payload under the tag nil.
abbrev popped : Stack → ℕ → Stack
popped s n = record s {
  current = sub_ℕ n 1;
  cells = update s.cells n (record (s.cells n) { type = nil });
}

module _ {r : Registers} where
  push_stack-eq :
      (xs : List Value) (v : Value) {s : Stack}
      → Holds r xs s
      → length xs < stack_size
      → push_stack s v ≡ ok (pushed s (length xs) v)
  unfolding push_stack write_cell ◌+ℤ◌
  push_stack-eq [] v h lt = ground arith
  push_stack-eq (x ∷ xs) v h lt = ground arith

  pub pushed-Holds :
      (xs : List Value) (v : Value) {s : Stack}
      → Holds r xs s
      → length xs < stack_size
      → Holds r (v ∷ xs) (pushed s (length xs) v)
  pushed-Holds xs v {s} h lt = record {
    limit = h.limit;
    top = ground arith;
    fits = lt;
    values = ground (arith, contents-update (length xs) (length xs) s.cells v);
    frame = h.frame;
  }

  -- A push on a stack that holds fewer than `stack_size` values returns, and puts the value on top.
  pub push_stack-Holds :
      (xs : List Value) (v : Value) {s : Stack}
      → Holds r xs s
      → length xs < stack_size
      → Returns (push_stack s v) (Holds r (v ∷ xs))
  push_stack-Holds xs v h lt = (_, push_stack-eq xs v h lt, pushed-Holds xs v h lt)

  -- A push on a full stack raises.
  pub push_stack-full :
      (xs : List Value) (v : Value) {s : Stack}
      → Holds r xs s
      → length xs ≡ stack_size
      → push_stack s v ≡ raised
  unfolding push_stack write_cell ◌+ℤ◌
  push_stack-full [] v h e = absurd (omega arith)
  push_stack-full (x ∷ xs) v h e = ground arith

  popped-Holds :
      (x : Value) (xs : List Value) {s : Stack}
      → Holds r (x ∷ xs) s
      → Holds r xs (popped s (length xs))
  popped-Holds x xs {s} h = record {
    limit = h.limit;
    top = refl;
    fits = ground arith;
    values = ground (
      arith,
      contents-update (length xs) (length xs) s.cells (record (s.cells (length xs)) { type = nil }),
      h.values,
    );
    frame = h.frame;
  }

  -- A pop of a stack that holds a value returns the top and leaves the others.
  pub pop_stack-Holds :
      (x : Value) (xs : List Value) {s : Stack}
      → Holds r (x ∷ xs) s
      → (s' : Stack) × (pop_stack s ≡ ok (x, s')) × Holds r xs s'
  unfolding pop_stack read_cell write_cell ◌-ℤ◌
  pop_stack-Holds x xs {s} h = (popped s (length xs), ground arith, popped-Holds x xs h)

  -- A pop of an empty stack raises.
  pub pop_stack-empty : {s : Stack} → Holds r [] s → pop_stack s ≡ raised
  unfolding pop_stack
  pop_stack-empty h = ground arith

  pub throwaway_stack-Holds :
      (x : Value) (xs : List Value) {s : Stack}
      → Holds r (x ∷ xs) s
      → Returns (throwaway_stack s) (Holds r xs)
  unfolding throwaway_stack read_cell write_cell ◌-ℤ◌
  throwaway_stack-Holds x xs {s} h = (popped s (length xs), ground arith, popped-Holds x xs h)

  pub peek_stack-Holds :
      (x : Value) (xs : List Value) {s : Stack} → Holds r (x ∷ xs) s → peek_stack s ≡ ok x
  unfolding peek_stack read_cell
  peek_stack-Holds x xs h = ground arith

  pub size_stack-Holds :
      (xs : List Value) {s : Stack} → Holds r xs s → size_stack s ≡ sub_ℕ (length xs) r.locals
  unfolding size_stack ◌+ℤ◌ ◌-ℤ◌
  size_stack-Holds [] h = ground arith
  size_stack-Holds (x ∷ xs) h = ground arith

  -- The opcodes that work on the top in place.
  pub read_top :
      (x : Value) (xs : List Value) {s : Stack} → Holds r (x ∷ xs) s → read_cell s s.current ≡ ok x
  unfolding read_cell
  read_top x xs h = ground arith

  pub write_top-Holds :
      (x v : Value) (xs : List Value) {s : Stack}
      → Holds r (x ∷ xs) s
      → Returns (write_cell s s.current v) (Holds r (v ∷ xs))
  unfolding write_cell
  write_top-Holds x v xs {s} h = (
    record s { cells = update s.cells (length xs) v },
    ground arith,
    record {
      limit = h.limit;
      top = h.top;
      fits = h.fits;
      values = ground (arith, contents-update (length xs) (length xs) s.cells v, h.values);
      frame = h.frame;
    },
  )

  pub next_top : (xs : List Value) {s : Stack} → Holds r xs s → s.current +ℤ pos 1 ≡ pos (length xs)
  unfolding ◌+ℤ◌
  next_top xs h = ground arith

  pub lower_top :
      (x : Value) (xs : List Value) {s : Stack}
      → Holds r (x ∷ xs) s
      → s.current -ℤ pos 1 ≡ sub_ℕ (length xs) 1
  unfolding ◌-ℤ◌
  lower_top x xs h = ground arith

pub write_cell-eq :
    (s : Stack) (k : ℕ) (v : Value)
    → k < stack_size
    → write_cell s (pos k) v ≡ ok (record s { cells = update s.cells k v })
unfolding write_cell
write_cell-eq s k v h = ground arith

pub read_cell-eq : (s : Stack) (k : ℕ) → k < stack_size → read_cell s (pos k) ≡ ok (s.cells k)
unfolding read_cell
read_cell-eq s k h = ground arith
