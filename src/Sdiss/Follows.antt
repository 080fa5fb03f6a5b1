-- ===== src/Sdiss/Follows.antt =====
-- The disassembler (src/sdiss.c) against the interpreter (src/interpret.c).
use sin.Interpret.Arith.{op_add, op_subtract, op_divide, op_multiply, op_negate}
use sin.Interpret.Code.{byte_at}
use sin.Interpret.Compare.{
  op_equal, op_notequal, op_lessthan, op_lessthanorequal, op_greaterthan, op_greaterthanorequal,
}
use sin.Interpret.Control.{op_pushint, op_pushstr}
use sin.Interpret.Locals.{op_inclocal, op_declocal, op_savelocal, op_getlocal}
use sin.Interpret.Logic.{op_logicalnot}
use sin.Interpret.Loop.{op_at, opcodes}
use sin.Interpret.Machine.AssignCode.{Compiler}
use sin.Interpret.Machine.{Machine, Interpreter}
use sin.Outcome.{ok}
use sin.Prelude.{ℕ, ◌+◌, ◌≡◌, refl, Bytes}
use sin.Sdiss.{
  add, divide, multiply, negate, bool_eq, bool_noteq, bool_lt, subtract, bool_gt, bool_lteq,
  bool_gteq, logical_not, save_item, save_local, retrieve_local, increment_local, decrement_local,
  integer, stringlit,
}
use sin.Sdiss.Straight.{
  IsStraight, on_stack-next, on_code-next, Lists, at_opcode, plain_line, op_savelocal-next,
  op_getlocal-next, op_inclocal-next, op_declocal-next, op_pushint-next, op_pushstr-next,
  string_line, op_assignitem-next, is_add, is_divide, is_multiply, is_negate, is_bool_eq,
  is_bool_noteq, is_bool_lt, is_subtract, is_bool_gt, is_bool_lteq, is_bool_gteq, is_logical_not,
  is_assignitem, is_savelocal, is_getlocal, is_inclocal, is_declocal, is_pushint, is_pushstr,
}

-- Where the interpreter gets through an opcode of arithmetic, comparison, negation, locals, assignment,
-- an int or a string shorter than 2 ^ 15, the disassembler prints one line for it and comes to the same
-- offset.
pub list_opcode-follows :
    (compiler : Compiler) (interpret : Interpreter) (code : Bytes) (item i b next : ℕ)
    (m m' : Machine)
    → IsStraight code i b
    → byte_at code i ≡ ok b
    → op_at (opcodes compiler interpret) b code item (i + 1) m ≡ ok (next, m')
    → Lists code i next
unfolding opcodes
list_opcode-follows compiler interpret code item i b next m m' is_add at e =
    plain_line code i next 97 add at refl (on_stack-next op_add code item (i + 1) next m m' e)
list_opcode-follows compiler interpret code item i b next m m' is_divide at e =
    plain_line code i next 100 divide at refl
      (on_stack-next op_divide code item (i + 1) next m m' e)
list_opcode-follows compiler interpret code item i b next m m' is_multiply at e =
    plain_line code i next 109 multiply at refl
      (on_stack-next op_multiply code item (i + 1) next m m' e)
list_opcode-follows compiler interpret code item i b next m m' is_negate at e =
    plain_line code i next 110 negate at refl
      (on_stack-next op_negate code item (i + 1) next m m' e)
list_opcode-follows compiler interpret code item i b next m m' is_bool_eq at e =
    plain_line code i next 111 bool_eq at refl
      (on_stack-next op_equal code item (i + 1) next m m' e)
list_opcode-follows compiler interpret code item i b next m m' is_bool_noteq at e =
    plain_line code i next 113 bool_noteq at refl
      (on_stack-next op_notequal code item (i + 1) next m m' e)
list_opcode-follows compiler interpret code item i b next m m' is_bool_lt at e =
    plain_line code i next 114 bool_lt at refl
      (on_stack-next op_lessthan code item (i + 1) next m m' e)
list_opcode-follows compiler interpret code item i b next m m' is_subtract at e =
    plain_line code i next 115 subtract at refl
      (on_stack-next op_subtract code item (i + 1) next m m' e)
list_opcode-follows compiler interpret code item i b next m m' is_bool_gt at e =
    plain_line code i next 116 bool_gt at refl
      (on_stack-next op_greaterthan code item (i + 1) next m m' e)
list_opcode-follows compiler interpret code item i b next m m' is_bool_lteq at e =
    plain_line code i next 117 bool_lteq at refl
      (on_stack-next op_lessthanorequal code item (i + 1) next m m' e)
list_opcode-follows compiler interpret code item i b next m m' is_bool_gteq at e =
    plain_line code i next 118 bool_gteq at refl
      (on_stack-next op_greaterthanorequal code item (i + 1) next m m' e)
list_opcode-follows compiler interpret code item i b next m m' is_logical_not at e =
    plain_line code i next 120 logical_not at refl
      (on_stack-next op_logicalnot code item (i + 1) next m m' e)
list_opcode-follows compiler interpret code item i b next m m' is_assignitem at e =
    plain_line code i next 67 save_item at refl (op_assignitem-next (i + 1) next m m' e)
list_opcode-follows compiler interpret code item i b next m m' is_savelocal at e =
    let (s, run) = on_code-next op_savelocal code item (i + 1) next m m' e in
    let (x, read, same) = op_savelocal-next code (i + 1) next m.vm.stack s run in
    at_opcode code i next 99 (save_local x) at (rw (read, same) refl)
list_opcode-follows compiler interpret code item i b next m m' is_getlocal at e =
    let (s, run) = on_code-next op_getlocal code item (i + 1) next m m' e in
    let (x, read, same) = op_getlocal-next code (i + 1) next m.vm.stack s run in
    at_opcode code i next 101 (retrieve_local x) at (rw (read, same) refl)
list_opcode-follows compiler interpret code item i b next m m' is_inclocal at e =
    let (s, run) = on_code-next op_inclocal code item (i + 1) next m m' e in
    let (x, read, same) = op_inclocal-next code (i + 1) next m.vm.stack s run in
    at_opcode code i next 102 (increment_local x) at (rw (read, same) refl)
list_opcode-follows compiler interpret code item i b next m m' is_declocal at e =
    let (s, run) = on_code-next op_declocal code item (i + 1) next m m' e in
    let (x, read, same) = op_declocal-next code (i + 1) next m.vm.stack s run in
    at_opcode code i next 103 (decrement_local x) at (rw (read, same) refl)
list_opcode-follows compiler interpret code item i b next m m' is_pushint at e =
    let (s, run) = on_code-next op_pushint code item (i + 1) next m m' e in
    let (w, read, same) = op_pushint-next code (i + 1) next m.vm.stack s run in
    at_opcode code i next 112 (integer w) at (rw (read, same) refl)
list_opcode-follows compiler interpret code item i b next m m' (is_pushstr len read short) at e =
    let (s, run) = on_code-next op_pushstr code item (i + 1) next m m' e in
    let (chars, got, same) = op_pushstr-next code (i + 1) next len m.vm.stack s read run in
    at_opcode code i next 108 (stringlit chars) at
      (string_line code (i + 1) next len chars read short got same)
