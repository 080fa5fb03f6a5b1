-- ===== src/Interpret/Loop.antt =====
-- `interpret` of src/interpret.c and its dispatch table.
pub mod Ends
pub mod Pushes
pub mod Gets
use sin.Interpret.Arith.{op_add, op_subtract, op_divide, op_multiply, op_negate}
use sin.Interpret.Code.{byte_at}
use sin.Interpret.Compare.{
  op_equal, op_notequal, op_lessthan, op_lessthanorequal, op_greaterthan, op_greaterthanorequal,
}
use sin.Interpret.Control.{op_nop, op_undefined, op_pushint, op_pushstr, op_jump, op_jumpfalse}
use sin.Interpret.Locals.{op_inclocal, op_declocal, op_savelocal, op_getlocal}
use sin.Interpret.Logic.{op_logicalnot, op_logicaland, op_logicalor}
use sin.Interpret.Machine.AssignCode.{Compiler, op_assigncodeitem}
use sin.Interpret.Machine.Assemble.{op_assembleitem}
use sin.Libcall.Table.{op_libcall}
use sin.Interpret.Machine.{
  Machine, with_stack, pop_value, Interpreter, op_assignitem, op_exists, op_nthname, op_rootname,
  op_fetchitem, op_delete,
}
use sin.Items.{Item, load, save}
use sin.Outcome.{Outcome, ok, undefined, ◌>>=◌, from_option}
use sin.Prelude.Int.{ℤ, pos, ◌+ℤ◌, ◌-ℤ◌, ltb_ℤ}
use sin.Prelude.{
  ℕ, zero, suc, ◌+◌, Bool, true, false, Option, none, some, List, [], ◌∷◌, ◌==◌, if◌then◌else◌,
  Bytes,
}
use sin.Stack.{Stack, size_stack}
use sin.Value.{Value, value_nil}

-- `OP_t`: the code, the item that runs, `nextop`, and the machine.
abbrev pub Op : Type 0
Op = Bytes → ℕ → ℕ → Machine → Outcome (ℕ × Machine)

abbrev pub on_stack : (Stack → Outcome Stack) → Op
on_stack op code item nextop m = do s ← op m.vm.stack; ok (nextop, with_stack m s)

abbrev pub on_code : (Bytes → ℕ → Stack → Outcome (ℕ × Stack)) → Op
on_code op code item nextop m = do (next, s) ← op code nextop m.vm.stack; ok (next, with_stack m s)

abbrev pub on_machine : (ℕ → Machine → Outcome (ℕ × Machine)) → Op
on_machine op code item nextop m = op nextop m

unfoldable pub opcodes : Compiler → Interpreter → List (ℕ × Op)
opcodes compiler interpret =
    (0, on_code op_nop)
    ∷ (97, on_stack op_add)
    ∷ (99, on_code op_savelocal)
    ∷ (100, on_stack op_divide)
    ∷ (101, on_code op_getlocal)
    ∷ (102, on_code op_inclocal)
    ∷ (103, on_code op_declocal)
    ∷ (106, on_code op_jump)
    ∷ (107, on_code op_jumpfalse)
    ∷ (108, on_code op_pushstr)
    ∷ (109, on_stack op_multiply)
    ∷ (110, on_stack op_negate)
    ∷ (111, on_stack op_equal)
    ∷ (112, on_code op_pushint)
    ∷ (113, on_stack op_notequal)
    ∷ (114, on_stack op_lessthan)
    ∷ (115, on_stack op_subtract)
    ∷ (116, on_stack op_greaterthan)
    ∷ (117, on_stack op_lessthanorequal)
    ∷ (118, on_stack op_greaterthanorequal)
    ∷ (120, on_stack op_logicalnot)
    ∷ (121, on_stack op_logicaland)
    ∷ (122, on_stack op_logicalor)
    ∷ (65, λ code item. op_libcall code)
    ∷ (66, λ code item. op_assigncodeitem compiler code)
    ∷ (67, on_machine op_assignitem)
    ∷ (70, λ code item. op_fetchitem interpret code item)
    ∷ (73, λ code item. op_assembleitem code)
    ∷ (87, on_machine op_delete)
    ∷ (88, on_machine op_exists)
    ∷ (89, on_machine op_nthname)
    ∷ (90, on_machine op_rootname)
    ∷ []

-- `opcode[*op]`, which is `op_undefined` where nothing else was set.
abbrev pub op_at : List (ℕ × Op) → ℕ → Op
op_at [] b = on_code op_undefined
op_at ((c, op) ∷ table) b = if c == b then op else op_at table b

-- `while (*op != 'h')`, with fuel; without it the result is `undefined`.
unfoldable pub run : ℕ → List (ℕ × Op) → Bytes → ℕ → ℕ → Machine → Outcome Machine
run zero table code item op m = undefined
run (suc fuel) table code item op m = do
  b ← byte_at code op
  if b == 104
      then ok m
      else (do (next, m') ← op_at table b code item (op + 1) m; run fuel table code item next m')

unfoldable pub mark : Bool → ℕ → Machine → Outcome Machine
mark inuse i m = do
  item ← load m.store i
  ok (record m { store = save m.store i (record item { inuse = inuse }) })

-- The locals that are no parameters lie above the arguments.
unfoldable pub begin_run : ℕ → ℕ → Machine → Machine
begin_run numlocals numparams m = with_stack m (record (m.vm.stack) {
  current = m.vm.stack.current +ℤ (pos numlocals -ℤ pos numparams);
  locals = numlocals;
  params = numparams;
})

-- The result: the top, where `size_stack` counts any value, and nil otherwise.
unfoldable pub end_run : Machine → Outcome (Value × Machine)
end_run m = if ltb_ℤ (pos 0) (size_stack m.vm.stack) then pop_value m else ok (value_nil, m)

-- A call takes one of the fuel, and so does each of its opcodes.
unfoldable pub interpret : ℕ → Compiler → Interpreter
interpret zero compiler i m = undefined
interpret (suc fuel) compiler i m = do
  item ← load m.store i
  code ← from_option item.bytecode
  numlocals ← byte_at code 0
  numparams ← byte_at code 1
  m1 ← mark true i m
  m2 ←
      run (suc fuel) (opcodes compiler (interpret fuel compiler)) code i 2
        (begin_run numlocals numparams m1)
  m3 ← mark false i m2
  end_run m3
