-- ===== src/Interpret/Loop/Pushes.antt =====
-- A run of `interpret` (src/interpret.c) whose code pushes an int and stops.
use sin.Interpret.Code.{byte_at, little_endian}
use sin.Interpret.Control.{op_pushint}
use sin.Interpret.Loop.Ends.{
  marked, mark-marked, marked-at, begin_run-items, interpret-run, end_run-top, begun,
}
use sin.Interpret.Loop.{opcodes, run, begin_run, interpret}
use sin.Interpret.Machine.AssignCode.{Compiler}
use sin.Interpret.Machine.Fetch.{Runs}
use sin.Interpret.Machine.{Machine, with_stack, Interpreter}
use sin.Items.{Item}
use sin.Outcome.{ok, Returns}
use sin.Prelude.Int.{pos}
use sin.Prelude.{
  ℕ, suc, ◌+◌, ◌<◌, ◌≤◌, ◌≡◌, refl, ap, ◌∙◌, true, false, some, List, ◌∷◌, ◌++◌, length,
  length-append, Bytes, arith,
}
use sin.Stack.Contents.{Registers, Holds, push_stack-Holds}
use sin.Stack.{Stack, stack_size}
use sin.Value.{Value, int_value}

begun_callstack : (n : ℕ) (m : Machine) → (begin_run n n m).vm.callstack ≡ m.vm.callstack
unfolding begin_run
begun_callstack n m = refl

run-pushint :
    (fuel : ℕ) (compiler : Compiler) (f : Interpreter) (code : Bytes) (i : ℕ) (m : Machine)
    (s : Stack)
    → byte_at code 2 ≡ ok 112
    → op_pushint code 3 m.vm.stack ≡ ok (11, s)
    → byte_at code 11 ≡ ok 104
    → run (suc (suc fuel)) (opcodes compiler f) code i 2 m ≡ ok (with_stack m s)
unfolding run opcodes
run-pushint fuel compiler f code i m s e0 e1 e2 = rw (e0, e1) (rw e2 refl)

op_pushint-Holds :
    {r : Registers} (code : Bytes) (nextop w : ℕ) (xs : List Value) {s : Stack}
    → little_endian 8 code nextop ≡ ok w
    → Holds r xs s
    → length xs < stack_size
    → (s' : Stack) × (op_pushint code nextop s ≡ ok (nextop + 8, s'))
      × Holds r (int_value w ∷ xs) s'
unfolding op_pushint
op_pushint-Holds code nextop w xs e h lt =
    let (s', e', h') = push_stack-Holds xs (int_value w) h lt in (s', rw (e, e') refl, h')

-- From the start of its run, the code pushes what `result` makes of the arguments and stops.
abbrev pub PushesResult : ℕ → Compiler → Bytes → ℕ → ℕ → ℕ → (List Value → Value) → Type 0
PushesResult fuel compiler code i n needs result =
    (f : Interpreter) (m : Machine) (r : Registers) (args below : List Value)
    → length args ≡ n
    → n + length below + needs ≤ stack_size
    → r.base ≡ pos (length below)
    → Holds r (args ++ below) m.vm.stack
    → Returns (run (suc fuel) (opcodes compiler f) code i 2 m)
        (λ ran. (s : Stack) × (ran ≡ with_stack m s) × Holds r (result args ∷ (args ++ below)) s)

-- Code whose `n` locals are all parameters and that pushes its result keeps the contract of a call.
pub pushes-Runs :
    (fuel : ℕ) (compiler : Compiler) (i n needs : ℕ) (result : List Value → Value) (item : Item)
    (code : Bytes)
    → item.bytecode ≡ some code
    → byte_at code 0 ≡ ok n
    → byte_at code 1 ≡ ok n
    → PushesResult fuel compiler code i n needs result
    → Runs (interpret (suc fuel) compiler) i item n needs result
pushes-Runs fuel compiler i n needs result item code held e0 e1 pushes m depth r args below at sized
      room top based h =
    let xs = args ++ below in
    let len = length-append args below in
    let busy = marked true i item m in
    let begun_m = begin_run n n busy in
    let item' : Item = record item { inuse = true } in
    let r' : Registers = record r { locals = n; params = n } in
    let (ran, runs, (s1, same, h1)) =
      pushes (interpret fuel compiler) begun_m r' args below sized room based (begun n busy xs h) in
    let runs' : run (suc fuel) (opcodes compiler (interpret fuel compiler)) code i 2 begun_m
        ≡ ok (with_stack begun_m s1) =
      runs ∙ ap ok same in
    let done0 = with_stack begun_m s1 in
    let held' : done0.store.items i ≡ some item' =
      begin_run-items n n i busy ∙ marked-at true i item m in
    let done = marked false i item' done0 in
    let (s2, ends, h2) = end_run-top done (result args) xs h1 (omega arith) in
    (
      (result args, with_stack done s2),
      interpret-run fuel compiler i n n code item m busy done0 done _ at held e0 e1
          (mark-marked true i item m at) runs' (mark-marked false i item' done0 held') ends,
      (
        refl,
        rw (begun_callstack n busy) top,
        ap (λ c. c.entry depth) (begun_callstack n busy),
        (r', args, h2),
      ),
    )

-- Code whose `n` locals are all parameters and that pushes an int and stops keeps the contract of a
-- call: with room for one value it gives the int, and leaves the frame and the values of its
-- caller, wherever that stands.
pub interpret-Runs :
    (fuel : ℕ) (compiler : Compiler) (i n w : ℕ) (item : Item) (code : Bytes)
    → item.bytecode ≡ some code
    → byte_at code 0 ≡ ok n
    → byte_at code 1 ≡ ok n
    → byte_at code 2 ≡ ok 112
    → little_endian 8 code 3 ≡ ok w
    → byte_at code 11 ≡ ok 104
    → Runs (interpret (suc (suc fuel)) compiler) i item n 1 (λ args. int_value w)
interpret-Runs fuel compiler i n w item code held e0 e1 e2 e3 e4 =
    pushes-Runs (suc fuel) compiler i n 1 (λ args. int_value w) item code held e0 e1
      (λ f m r args below sized room based h.
        let len = length-append args below in
        let (s1, pushes, h1) = op_pushint-Holds code 3 w (args ++ below) e3 h (omega arith) in
        (with_stack m s1, run-pushint fuel compiler f code i m s1 e2 pushes e4, (s1, refl, h1)))
