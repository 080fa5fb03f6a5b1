-- ===== src/Sdiss.antt =====
-- The disassembler of src/sdiss.c, which prints a line for each opcode of a file.
pub mod Straight
pub mod Follows
pub mod Header
use sin.Interpret.Code.{byte_at, little_endian, bytes_at}
use sin.Outcome.{Outcome, ok, undefined, ◌>>=◌}
use sin.Prelude.{
  ℕ, zero, suc, ◌+◌, ◌^◌, Bool, true, false, List, [], ◌∷◌, ◌++◌, length, ltb, ◌==◌, if◌then◌else◌,
  Bytes, c_string,
}

-- The lines that are printed, with their operands. An offset is the bit pattern of an `int16_t`.
pub data Listing : Type 0 where
  add divide multiply negate subtract : Listing
  bool_eq bool_noteq bool_lt bool_gt bool_lteq bool_gteq logical_not : Listing
  save_local retrieve_local increment_local decrement_local : ℕ → Listing
  jump jump_if_false : ℕ → Listing
  stringlit : Bytes → Listing
  integer : ℕ → Listing
  embedded_code : Bytes → Listing
  begin_item save_item fetch_item undefined_opcode : Listing
  layer : Bytes → Listing
  begin_dereference : Listing
  local_var : ℕ → Listing
  end_item unknown_in_item unknown_dereference : Listing

-- The opcodes that are printed without an operand.
abbrev pub plain_opcodes : List (ℕ × Listing)
plain_opcodes =
    (97, add)
    ∷ (100, divide)
    ∷ (109, multiply)
    ∷ (110, negate)
    ∷ (111, bool_eq)
    ∷ (113, bool_noteq)
    ∷ (114, bool_lt)
    ∷ (115, subtract)
    ∷ (116, bool_gt)
    ∷ (117, bool_lteq)
    ∷ (118, bool_gteq)
    ∷ (120, logical_not)
    ∷ (67, save_item)
    ∷ (70, fetch_item)
    ∷ []

abbrev pub plain_at : List (ℕ × Listing) → ℕ → Listing
plain_at [] b = undefined_opcode
plain_at ((c, l) ∷ table) b = if c == b then l else plain_at table b

-- What a step has printed, and where it has come to.
abbrev pub Printed : Type 0
Printed = Outcome (List Listing × ℕ)

abbrev pub with_byte : (ℕ → Listing) → Bytes → ℕ → Printed
with_byte l code i = do b ← byte_at code i; ok (l b ∷ [], i + 1)

abbrev pub with_offset : (ℕ → Listing) → Bytes → ℕ → Printed
with_offset l code i = do offset ← little_endian 2 code i; ok (l offset ∷ [], i + 2)

abbrev pub with_int : Bytes → ℕ → Printed
with_int code i = do ival ← little_endian 8 code i; ok (integer ival ∷ [], i + 8)

-- The length is an `int16_t`: the loop of a negative one has no rounds.
abbrev pub with_string : Bytes → ℕ → Printed
with_string code i = do
  offset ← little_endian 2 code i
  let len = if ltb offset (2 ^ 15) then offset else 0
  chars ← bytes_at len code (i + 2)
  ok (stringlit chars ∷ [], i + 2 + len)

abbrev pub with_code : Bytes → ℕ → Printed
with_code code i = do
  len ← little_endian 2 code i
  chars ← bytes_at len code (i + 2)
  ok (embedded_code chars ∷ [], i + 2 + len)

-- `process_dereference`, over the `process_item` that it calls.
unfoldable pub process_dereference : (ℕ → Printed) → Bytes → ℕ → Printed
unfolding byte_at
process_dereference item code i = do
  layertype ← byte_at code i
  if layertype == 86
      then (do localvar ← byte_at code (i + 1); ok (local_var localvar ∷ [], i + 2))
      else (if layertype == 73
          then (do (ls, next) ← item (i + 1); ok (begin_item ∷ ls, next))
          else ok (unknown_dereference ∷ [], i + 1))

-- The cases of the `switch` of `process_item`.
abbrev pub in_item : (ℕ → Printed) → ℕ → Bytes → ℕ → Printed
in_item item b code i =
    if b == 76
    then (do
      len ← byte_at code i
      name ← bytes_at len code (i + 1)
      ok (layer (c_string name) ∷ [], i + 1 + len))
    else (if b == 68
        then (do (ls, next) ← process_dereference item code i; ok (begin_dereference ∷ ls, next))
        else ok (unknown_in_item ∷ [], i))

-- Each round takes a byte, so the length of the code bounds the rounds and their depth.
unfoldable pub process_item : ℕ → Bytes → ℕ → Printed
unfolding process_dereference byte_at bytes_at
process_item zero code i = undefined
process_item (suc fuel) code i = do
  b ← byte_at code i
  if b == 69 then ok (end_item ∷ [], i + 1) else (do
    (ls, next) ← in_item (process_item fuel code) b code (i + 1)
    (rest, last) ← process_item fuel code next
    ok (ls ++ rest, last))

-- `switch (*opcodeptr++)`
abbrev pub list_by : ℕ → Bytes → ℕ → Printed
list_by b code i =
    if b == 99
    then with_byte save_local code i
    else if b == 101
    then with_byte retrieve_local code i
    else if b == 102
    then with_byte increment_local code i
    else if b == 103
    then with_byte decrement_local code i
    else if b == 106
    then with_offset jump code i
    else if b == 107
    then with_offset jump_if_false code i
    else if b == 108
    then with_string code i
    else if b == 112
    then with_int code i
    else if b == 66
    then with_code code i
    else if b == 73
    then (do (ls, next) ← process_item (length code) code i; ok (begin_item ∷ ls, next))
    else ok (plain_at plain_opcodes b ∷ [], i)

unfoldable pub list_opcode : Bytes → ℕ → Printed
unfolding byte_at little_endian bytes_at process_item
list_opcode code i = do b ← byte_at code i; list_by b code (i + 1)

-- `while (*opcodeptr != 'h')`; each round takes a byte.
unfoldable pub list_opcodes : ℕ → Bytes → ℕ → Outcome (List Listing)
unfolding list_opcode
list_opcodes zero code i = undefined
list_opcodes (suc fuel) code i = do
  b ← byte_at code i
  if b == 104
      then ok []
      else (do (ls, next) ← list_opcode code i; rest ← list_opcodes fuel code next; ok (ls ++ rest))

-- The file, whose first byte is the number of locals.
unfoldable pub disassemble : Bytes → Outcome (List Listing)
unfolding list_opcodes
disassemble code = do locals ← byte_at code 0; list_opcodes (length code) code 1
