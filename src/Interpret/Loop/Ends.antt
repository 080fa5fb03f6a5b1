-- ===== src/Interpret/Loop/Ends.antt =====
-- What a run of `interpret` (src/interpret.c) takes for its result.
use sin.Interpret.Code.{byte_at}
use sin.Interpret.Loop.{Op, opcodes, op_at, run, mark, begin_run, end_run, interpret}
use sin.Interpret.Machine.AssignCode.{Compiler}
use sin.Interpret.Machine.Assign.{pop_value-Holds}
use sin.Interpret.Machine.{Machine, with_stack}
use sin.Items.{Item, load, save}
use sin.Outcome.{Outcome, ok, raised, undefined, ◌>>=◌}
use sin.Prelude.Int.{◌+ℤ◌, ◌-ℤ◌}
use sin.Prelude.{
  ℕ, zero, suc, ◌+◌, ◌<◌, ◌≡◌, refl, ◌∙◌, Bool, true, false, some, List, ◌∷◌, length, ◌==◌, Bytes,
  arith, Bool-cases, inl, inr,
}
use sin.Stack.Contents.{Registers, Holds, size_stack-Holds}
use sin.Stack.{Stack}
use sin.Value.{Value}

bind-ok :
    {A B : Type 0} (m : Outcome A) (f : A → Outcome B) (b : B)
    → m >>= f ≡ ok b
    → (a : A) × (m ≡ ok a) × (f a ≡ ok b)
bind-ok (ok a) f b e = (a, refl, e)
bind-ok raised f b e = absurd cc
bind-ok undefined f b e = absurd cc

-- A run of the opcodes that ends with some fuel ends in the same machine with any more.
pub run-more :
    (fuel extra : ℕ) (table : List (ℕ × Op)) (code : Bytes) (item op : ℕ) (m m' : Machine)
    → run fuel table code item op m ≡ ok m'
    → run (fuel + extra) table code item op m ≡ ok m'
unfolding run
run-more zero extra table code item op m m' e = absurd cc
run-more (suc fuel) extra table code item op m m' e =
    let (b, read, rest) = bind-ok (byte_at code op) _ m' e in
    let z : suc fuel + extra ≡ suc (fuel + extra) = omega arith in
    elim (Bool-cases (b == 104)) [
      | inl stop ↦ rw (z, read, stop) (rw stop at rest)
      | inr go ↦
          (let ((next, m1), ran, rest') =
              bind-ok (op_at table b code item (op + 1) m) _ m' (rw go at rest) in
            rw (z, read, go, ran) (run-more fuel extra table code item next m1 m' rest'))
    ]

pub end_run-top :
    {r : Registers} (m : Machine) (x : Value) (xs : List Value)
    → Holds r (x ∷ xs) m.vm.stack
    → r.locals < length (x ∷ xs)
    → (s : Stack) × (end_run m ≡ ok (x, with_stack m s)) × Holds r xs s
unfolding end_run
end_run-top m x xs h lt =
    let (s, e, h') = pop_value-Holds m x xs h in
    let size = size_stack-Holds (x ∷ xs) h in (s, rw size (ground (arith, e)), h')

pub begun :
    {r : Registers} (n : ℕ) (m : Machine) (xs : List Value)
    → Holds r xs m.vm.stack
    → Holds (record r { locals = n; params = n }) xs (begin_run n n m).vm.stack
unfolding begin_run ◌+ℤ◌ ◌-ℤ◌
begun n m xs h = record {
  limit = h.limit;
  top = ground (arith, h.top);
  fits = h.fits;
  values = h.values;
  frame = ground (arith, h.frame);
}

abbrev pub marked : Bool → ℕ → Item → Machine → Machine
marked inuse i item m = record m { store = save m.store i (record item { inuse = inuse }) }

pub mark-marked :
    (inuse : Bool) (i : ℕ) (item : Item) (m : Machine)
    → m.store.items i ≡ some item
    → mark inuse i m ≡ ok (marked inuse i item m)
unfolding mark load
mark-marked inuse i item m at = rw at refl

pub marked-at :
    (inuse : Bool) (i : ℕ) (item : Item) (m : Machine)
    → (marked inuse i item m).store.items i ≡ some (record item { inuse = inuse })
marked-at inuse i item m = ground arith

pub begin_run-items : (a b i : ℕ) (m : Machine) → (begin_run a b m).store.items i ≡ m.store.items i
unfolding begin_run
begin_run-items a b i m = refl

pub run-stop :
    (fuel : ℕ) (table : List (ℕ × Op)) (code : Bytes) (i op : ℕ) (m : Machine)
    → byte_at code op ≡ ok 104
    → run (suc fuel) table code i op m ≡ ok m
unfolding run
run-stop fuel table code i op m e = rw e refl

pub interpret-run :
    (fuel : ℕ) (compiler : Compiler) (i a b : ℕ) (code : Bytes) (item : Item) (m m1 m2 m3 : Machine)
    (out : Outcome (Value × Machine))
    → m.store.items i ≡ some item
    → item.bytecode ≡ some code
    → byte_at code 0 ≡ ok a
    → byte_at code 1 ≡ ok b
    → mark true i m ≡ ok m1
    → run (suc fuel) (opcodes compiler (interpret fuel compiler)) code i 2 (begin_run a b m1)
      ≡ ok m2
    → mark false i m2 ≡ ok m3
    → end_run m3 ≡ out
    → interpret (suc fuel) compiler i m ≡ out
unfolding interpret load
interpret-run fuel compiler i a b code item m m1 m2 m3 out e0 e1 e2 e3 e4 e5 e6 e7 =
    rw (e0, e1, e2, e3, e4, e5, e6) e7

-- An item whose `n` locals are all parameters, and whose code stops at once, has as its result
-- whatever is on top of the stack if that holds more than `n` values in all, and takes it away: the
-- last argument, or without parameters a value of the caller.
pub interpret-steals :
    {r : Registers} (fuel : ℕ) (compiler : Compiler) (i n : ℕ) (m : Machine) (item : Item)
    (rest : Bytes) (x : Value) (xs : List Value)
    → m.store.items i ≡ some item
    → item.bytecode ≡ some (n ∷ n ∷ 104 ∷ rest)
    → Holds r (x ∷ xs) m.vm.stack
    → n < length (x ∷ xs)
    → (m' : Machine) × (interpret (suc fuel) compiler i m ≡ ok (x, m'))
      × Holds (record r { locals = n; params = n }) xs m'.vm.stack
unfolding byte_at
interpret-steals {r} fuel compiler i n m item rest x xs at code h lt =
    let busy = marked true i item m in
    let begun_m = begin_run n n busy in
    let item' : Item = record item { inuse = true } in
    let held : begun_m.store.items i ≡ some item' =
      begin_run-items n n i busy ∙ marked-at true i item m in
    let done = marked false i item' begun_m in
    let (s, e, h') = end_run-top done x xs (begun n busy (x ∷ xs) h) lt in
    (
      with_stack done s,
      interpret-run fuel compiler i n n (n ∷ n ∷ 104 ∷ rest) item m busy begun_m done _ at code refl
          refl (mark-marked true i item m at)
          (run-stop fuel _ (n ∷ n ∷ 104 ∷ rest) i 2 begun_m refl)
          (mark-marked false i item' begun_m held) e,
      h',
    )
