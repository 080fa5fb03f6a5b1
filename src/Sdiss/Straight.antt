-- ===== src/Sdiss/Straight.antt =====
-- The opcodes of src/sdiss.c that neither jump nor call, and the lines that they take.
use sin.Interpret.Code.{byte_at, little_endian, bytes_at}
use sin.Interpret.Control.{op_pushint, op_pushstr}
use sin.Interpret.Locals.{
  op_inclocal, op_declocal, op_savelocal, op_getlocal, change_local, local_index,
}
use sin.Interpret.Loop.{on_stack, on_code}
use sin.Interpret.Machine.{Machine, pop_value, assignitem, op_assignitem}
use sin.Outcome.{Outcome, ok, ◌>>=◌, Returns-of_bind}
use sin.Prelude.{
  ℕ, ◌+◌, ◌^◌, ◌<◌, ◌≡◌, refl, [], ◌∷◌, Bytes, c_string, lt→ltb, Bool-cases, inl, inr,
}
use sin.Prelude.Int.{pos, ◌+ℤ◌}
use sin.Word.{add64, sub64}
use sin.Sdiss.{Listing, stringlit, list_by, with_string, list_opcode}
use sin.Stack.{Stack, push_stack, read_cell, write_cell}
use sin.Value.{int_value, str_value, is_int, payload_i, word}

-- The opcodes at offset `i` that go on behind their operands and that the disassembler knows: not
-- those that jump, and of the opcodes on items the assignment alone. A string has fewer than 2 ^ 15
-- bytes.
pub data IsStraight (code : Bytes) (i : ℕ) : ℕ → Type 0 where
  is_add : IsStraight code i 97
  is_divide : IsStraight code i 100
  is_multiply : IsStraight code i 109
  is_negate : IsStraight code i 110
  is_bool_eq : IsStraight code i 111
  is_bool_noteq : IsStraight code i 113
  is_bool_lt : IsStraight code i 114
  is_subtract : IsStraight code i 115
  is_bool_gt : IsStraight code i 116
  is_bool_lteq : IsStraight code i 117
  is_bool_gteq : IsStraight code i 118
  is_logical_not : IsStraight code i 120
  is_assignitem : IsStraight code i 67
  is_savelocal : IsStraight code i 99
  is_getlocal : IsStraight code i 101
  is_inclocal : IsStraight code i 102
  is_declocal : IsStraight code i 103
  is_pushint : IsStraight code i 112
  is_pushstr :
      (len : ℕ) → little_endian 2 code (i + 1) ≡ ok len → len < 2 ^ 15 → IsStraight code i 108

pub on_stack-next :
    (op : Stack → Outcome Stack) (code : Bytes) (item i next : ℕ) (m m' : Machine)
    → on_stack op code item i m ≡ ok (next, m')
    → next ≡ i
on_stack-next op code item i next m m' e =
    let (s, e1, e2) = Returns-of_bind (op m.vm.stack) _ e in cc

-- An opcode on the code and the stack that returns has given the offset that `on_code` passes on.
pub on_code-next :
    (op : Bytes → ℕ → Stack → Outcome (ℕ × Stack)) (code : Bytes) (item i next : ℕ) (m m' : Machine)
    → on_code op code item i m ≡ ok (next, m')
    → (s : Stack) × (op code i m.vm.stack ≡ ok (next, s))
on_code-next op code item i next m m' e =
    let ((n, s), e1, e2) = Returns-of_bind (op code i m.vm.stack) _ e in
    let same : n ≡ next = cc in (s, rw (← same) e1)

-- The line at an offset, and the offset behind it.
abbrev pub Lists : Bytes → ℕ → ℕ → Type 0
Lists code i next = (l : Listing) × (list_opcode code i ≡ ok (l ∷ [], next))

pub at_opcode :
    (code : Bytes) (i next b : ℕ) (l : Listing)
    → byte_at code i ≡ ok b
    → list_by b code (i + 1) ≡ ok (l ∷ [], next)
    → Lists code i next
unfolding list_opcode
at_opcode code i next b l at e = (l, rw at e)

pub plain_line :
    (code : Bytes) (i next b : ℕ) (l : Listing)
    → byte_at code i ≡ ok b
    → list_by b code (i + 1) ≡ ok (l ∷ [], i + 1)
    → next ≡ i + 1
    → Lists code i next
plain_line code i next b l at e same = at_opcode code i next b l at (rw same e)

local_read :
    (code : Bytes) (i : ℕ) (s : Stack) (j : ℕ)
    → local_index code i s ≡ ok j
    → (b : ℕ) × (byte_at code i ≡ ok b)
unfolding local_index
local_read code i s j e = let (b, e1, e2) = Returns-of_bind (byte_at code i) _ e in (b, e1)

pub op_savelocal-next :
    (code : Bytes) (i next : ℕ) (s s' : Stack)
    → op_savelocal code i s ≡ ok (next, s')
    → (b : ℕ) × (byte_at code i ≡ ok b) × (next ≡ i + 1)
unfolding op_savelocal
op_savelocal-next code i next s s' e =
    let (j, e1, r1) = Returns-of_bind (local_index code i s) _ e in
    let (old, e2, r2) = Returns-of_bind (read_cell s (pos j)) _ r1 in
    let (v, e3, r3) = Returns-of_bind (read_cell s s.current) _ r2 in
    let (s1, e4, r4) = Returns-of_bind (write_cell s (pos j) v) _ r3 in
    let (b, q) = local_read code i s j e1 in (b, q, cc)

pub op_getlocal-next :
    (code : Bytes) (i next : ℕ) (s s' : Stack)
    → op_getlocal code i s ≡ ok (next, s')
    → (b : ℕ) × (byte_at code i ≡ ok b) × (next ≡ i + 1)
unfolding op_getlocal
op_getlocal-next code i next s s' e =
    let (j, e1, r1) = Returns-of_bind (local_index code i s) _ e in
    let s1 = record s { current = s.current +ℤ pos 1 } in
    let (v, e2, r2) = Returns-of_bind (read_cell s1 (pos j)) _ r1 in
    let (s2, e3, r3) = Returns-of_bind (write_cell s1 s1.current v) _ r2 in
    let (b, q) = local_read code i s j e1 in (b, q, cc)

change_local-next :
    (f : ℕ → ℕ) (code : Bytes) (i next : ℕ) (s s' : Stack)
    → change_local f code i s ≡ ok (next, s')
    → (b : ℕ) × (byte_at code i ≡ ok b) × (next ≡ i + 1)
unfolding change_local
change_local-next f code i next s s' e =
    let (j, e1, r1) = Returns-of_bind (local_index code i s) _ e in
    let (v, e2, r2) = Returns-of_bind (read_cell s (pos j)) _ r1 in
    let (b, q) = local_read code i s j e1 in
    (
      b,
      q,
      elim (Bool-cases (is_int v.type)) [
        | inl yes_int ↦
            (let r : (payload_i v.payload >>= λ w.
            write_cell s (pos j) (record v { payload = word (f w) }) >>= λ s1. ok (i + 1, s1))
                  ≡ ok (next, s') =
                rw yes_int at r2 in
              let (w, e3, r3) = Returns-of_bind (payload_i v.payload) _ r in
              let (s1, e4, r4) =
                Returns-of_bind (write_cell s (pos j) (record v { payload = word (f w) })) _ r3 in
              cc)
        | inr no_int ↦ (let r : ok (i + 1, s) ≡ ok (next, s') = rw no_int at r2 in cc)
      ],
    )

pub op_inclocal-next :
    (code : Bytes) (i next : ℕ) (s s' : Stack)
    → op_inclocal code i s ≡ ok (next, s')
    → (b : ℕ) × (byte_at code i ≡ ok b) × (next ≡ i + 1)
unfolding op_inclocal
op_inclocal-next code i next s s' e = change_local-next (λ j. add64 j 1) code i next s s' e

pub op_declocal-next :
    (code : Bytes) (i next : ℕ) (s s' : Stack)
    → op_declocal code i s ≡ ok (next, s')
    → (b : ℕ) × (byte_at code i ≡ ok b) × (next ≡ i + 1)
unfolding op_declocal
op_declocal-next code i next s s' e = change_local-next (λ j. sub64 j 1) code i next s s' e

pub op_pushint-next :
    (code : Bytes) (i next : ℕ) (s s' : Stack)
    → op_pushint code i s ≡ ok (next, s')
    → (w : ℕ) × (little_endian 8 code i ≡ ok w) × (next ≡ i + 8)
unfolding op_pushint
op_pushint-next code i next s s' e =
    let (w, e1, e2) = Returns-of_bind (little_endian 8 code i) _ e in
    let (s2, e3, e4) = Returns-of_bind (push_stack s (int_value w)) _ e2 in (w, e1, cc)

pub op_pushstr-next :
    (code : Bytes) (i next len : ℕ) (s s' : Stack)
    → little_endian 2 code i ≡ ok len
    → op_pushstr code i s ≡ ok (next, s')
    → (chars : Bytes) × (bytes_at len code (i + 2) ≡ ok chars) × (next ≡ i + 2 + len)
unfolding op_pushstr
op_pushstr-next code i next len s s' read e =
    let (n, e1, e2) = Returns-of_bind (little_endian 2 code i) _ e in
    let same : n ≡ len = cc in
    let (chars, e3, e4) = Returns-of_bind (bytes_at n code (i + 2)) _ e2 in
    let (s2, e5, e6) = Returns-of_bind (push_stack s (str_value (c_string chars))) _ e4 in
    (chars, rw (← same) e3, rw (← same) cc)

pub string_line :
    (code : Bytes) (i next len : ℕ) (chars : Bytes)
    → little_endian 2 code i ≡ ok len
    → len < 2 ^ 15
    → bytes_at len code (i + 2) ≡ ok chars
    → next ≡ i + 2 + len
    → with_string code i ≡ ok (stringlit chars ∷ [], next)
string_line code i next len chars read short got same =
    rw (read, lt→ltb len (2 ^ 15) short, got, same) refl

pub op_assignitem-next :
    (i next : ℕ) (m m' : Machine) → op_assignitem i m ≡ ok (next, m') → next ≡ i
unfolding op_assignitem
op_assignitem-next i next m m' e =
    let ((v, m1), e1, r1) = Returns-of_bind (pop_value m) _ e in
    let ((name, m2), e2, r2) = Returns-of_bind (pop_value m1) _ r1 in
    let (m3, e3, r3) = Returns-of_bind (assignitem m2 name v) _ r2 in cc
