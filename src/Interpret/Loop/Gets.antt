-- ===== src/Interpret/Loop/Gets.antt =====
-- A run of `interpret` (src/interpret.c) whose code gives one of its parameters back.
use sin.Interpret.Code.{byte_at}
use sin.Interpret.Locals.Frame.{at_cell, cell_of, op_getlocal-Holds}
use sin.Interpret.Locals.{op_getlocal}
use sin.Interpret.Loop.Pushes.{pushes-Runs}
use sin.Interpret.Loop.{opcodes, run, interpret}
use sin.Interpret.Machine.AssignCode.{Compiler}
use sin.Interpret.Machine.Fetch.{Runs}
use sin.Interpret.Machine.{Machine, with_stack, Interpreter}
use sin.Items.{Item}
use sin.Outcome.{ok}
use sin.Prelude.{
  ℕ, suc, ◌+◌, ◌<◌, ◌≡◌, refl, ap, ◌∙◌, some, List, [], ◌∷◌, ◌++◌, length, length-append, Bytes,
  arith,
}
use sin.Stack.{Stack}
use sin.Value.{Value, int_value}

run-getlocal :
    (fuel : ℕ) (compiler : Compiler) (f : Interpreter) (code : Bytes) (i : ℕ) (m : Machine)
    (s : Stack)
    → byte_at code 2 ≡ ok 101
    → op_getlocal code 3 m.vm.stack ≡ ok (4, s)
    → byte_at code 4 ≡ ok 104
    → run (suc (suc fuel)) (opcodes compiler f) code i 2 m ≡ ok (with_stack m s)
unfolding run opcodes
run-getlocal fuel compiler f code i m s e0 e1 e2 = rw (e0, e1) (rw e2 refl)

-- A cell of the frame, counted from the bottom of the stack and from the bottom of the frame.
at_cell-append :
    (args below : List Value) (j : ℕ) (d : Value)
    → j < length args
    → at_cell (args ++ below) (length below + j) d ≡ at_cell args j d
at_cell-append [] below j d lt = absurd (omega arith)
at_cell-append (x ∷ args) below j d lt =
    let len = length-append args below in ground (arith, at_cell-append args below j d)

-- Code whose `n` locals are all parameters and that gets its local `j` and stops keeps the contract of
-- a call, and its result is argument `j`, counted from the first one, as long as the frame ends below
-- cell 256.
pub getlocal-Runs :
    (fuel : ℕ) (compiler : Compiler) (i n j : ℕ) (item : Item) (code : Bytes)
    → item.bytecode ≡ some code
    → byte_at code 0 ≡ ok n
    → byte_at code 1 ≡ ok n
    → byte_at code 2 ≡ ok 101
    → byte_at code 3 ≡ ok j
    → byte_at code 4 ≡ ok 104
    → j < n
    → Runs (interpret (suc (suc fuel)) compiler) i item n 768 (λ args. at_cell args j (int_value 0))
getlocal-Runs fuel compiler i n j item code held e0 e1 e2 e3 e4 lt =
    pushes-Runs (suc fuel) compiler i n 768 (λ args. at_cell args j (int_value 0)) item code held e0
      e1
      (λ m_f m r args below sized room based h.
        let b = length below in
        let len = length-append args below in
        let cell : cell_of b j ≡ b + j = omega arith in
        let (s1, gets, h1) =
          op_getlocal-Holds code 3 j b e3 based (args ++ below) h (omega arith) (omega arith) in
        let got : at_cell (args ++ below) (cell_of b j) (int_value 0)
            ≡ at_cell args j (int_value 0) =
          ap (λ k. at_cell (args ++ below) k (int_value 0)) cell
          ∙ at_cell-append args below j (int_value 0) (omega arith) in
        (
          with_stack m s1,
          run-getlocal fuel compiler m_f code i m s1 e2 gets e4,
          (s1, refl, rw got at h1),
        ))
