-- ===== src/Items/File.antt =====
-- `write_item`, `read_item` and the functions around them in src/item.c: the item store in a file,
-- which is the list of its bytes.
pub mod Fields
pub mod Contents
pub mod Trees
pub mod Make
pub mod Root
pub mod Fill
pub mod Reads
pub mod RoundTrip
pub mod Reload
use mathlib.Core.List.{flatten}
use sin.HashTable.{Entry, Chain, num_entries}
use sin.Items.{ItemType, value_item, code_item, Item, Store, load, make_item, make_root_item}
use sin.Outcome.{Outcome, ok, undefined, ◌>>=◌}
use sin.Prelude.{
  ℕ, zero, suc, ◌+◌, ◌-◌, ◌*◌, ◌/◌, ◌%◌, ◌^◌, Option, none, some, List, [], ◌∷◌, ◌++◌, length, take,
  replicate, ltb, leb, ◌==◌, if◌then◌else◌, Bytes, c_string,
}
use sin.Value.{
  ValueType, int, str, nil, bool, Value, value_zero, str_value, payload_i, payload_s, word,
}

-- `fwrite` of a number of `k` bytes.
unfoldable pub le_bytes : ℕ → ℕ → Bytes
le_bytes zero n = []
le_bytes (suc k) n = (n % 256) ∷ le_bytes k (n / 256)

unfoldable pub from_le : Bytes → ℕ
from_le [] = 0
from_le (b ∷ bs) = b + 256 * from_le bs

-- `fread` of `k` bytes; at the end of the file it leaves memory that is not initialised.
unfoldable pub fread : ℕ → Bytes → Outcome (Bytes × Bytes)
fread zero file = ok ([], file)
fread (suc k) [] = undefined
fread (suc k) (b ∷ file) = do (bs, rest) ← fread k file; ok (b ∷ bs, rest)

unfoldable pub read_number : ℕ → Bytes → Outcome (ℕ × Bytes)
read_number k file = do (bs, rest) ← fread k file; ok (from_le bs, rest)

-- `strncpy(name, item->name, 32); name[32] = '\0'`
unfoldable pub name_field : Bytes → Bytes
name_field name = let name32 = take 32 name in name32 ++ replicate (33 - length name32) 0

abbrev pub type_number : ValueType → ℕ
type_number int = 0
type_number str = 1
type_number nil = 2
type_number bool = 3

-- A length of a string is an `int`.
abbrev pub write_text : Bytes → Outcome Bytes
write_text s =
    if ltb (length s) (2 ^ 31) then ok (le_bytes 4 1 ++ (le_bytes 4 (length s) ++ s)) else undefined

abbrev pub write_word : ValueType → ℕ → Bytes
write_word type i = le_bytes 4 (type_number type) ++ le_bytes 8 i

abbrev pub write_by : ValueType → Value → Outcome Bytes
write_by str v = do s ← payload_s v.payload; write_text s
write_by type v = do i ← payload_i v.payload; ok (write_word type i)

-- `fwrite` of the first `n` bytes at a pointer.
abbrev pub bytes_of : ℕ → Option Bytes → Outcome Bytes
bytes_of zero b = ok []
bytes_of (suc n) none = undefined
bytes_of (suc n) (some b) = if leb (suc n) (length b) then ok (take (suc n) b) else undefined

abbrev pub write_content_by : ItemType → Item → Outcome Bytes
write_content_by value_item item = do
  value ← write_by item.value.type item.value
  ok (le_bytes 4 0 ++ value)
write_content_by code_item item = do
  code ← bytes_of item.bytecode_len item.bytecode
  ok (le_bytes 4 1 ++ (le_bytes 4 item.bytecode_len ++ code))

unfoldable pub write_content : Item → Outcome Bytes
write_content item = write_content_by item.type item

-- The second pair of loops of `write_item`, over the buckets and along each chain.
unfoldable pub write_entries : (ℕ → Outcome Bytes) → Chain ℕ → Outcome Bytes
write_entries write [] = ok []
write_entries write (e ∷ es) = do
  first ← write e.child
  rest ← write_entries write es
  ok (first ++ rest)

-- The first argument bounds the depth of the tree.
unfoldable pub write_item : ℕ → Store → ℕ → Outcome Bytes
unfolding num_entries flatten
write_item zero st i = undefined
write_item (suc fuel) st i = do
  item ← load st i
  content ← write_content item
  children ← write_entries (write_item fuel st) (flatten item.children.table)
  ok (
      name_field item.name
      ++ (content ++ (le_bytes 4 (num_entries item.children % 2 ^ 32) ++ children)))

-- What stands between the name and the children: a value, or bytecode.
pub data Content : Type 0 where
  plain : Value → Content
  code : Bytes → Content

abbrev pub read_text : Bytes → Outcome (Content × Bytes)
read_text file = do
  (len, rest) ← read_number 4 file
  (chars, rest') ← (if ltb len (2 ^ 31) then fread len rest else undefined)
  ok (plain (str_value (c_string chars)), rest')

abbrev pub read_word : ValueType → Bytes → Outcome (Content × Bytes)
read_word type file = do
  (i, rest) ← read_number 8 file
  ok (plain (record { type = type; payload = word i }), rest)

-- `switch (valtype)`: of any other tag nothing is read.
abbrev pub read_value : ℕ → Bytes → Outcome (Content × Bytes)
read_value tag file =
    if tag == 0
    then read_word int file
    else if tag == 1
    then read_text file
    else if tag == 2
    then read_word nil file
    else if tag == 3
    then read_word bool file
    else undefined

abbrev pub read_code : Bytes → Outcome (Content × Bytes)
read_code file = do
  (len, rest) ← read_number 4 file
  (bytecode, rest') ← fread len rest
  ok (code bytecode, rest')

abbrev pub read_by : ℕ → Bytes → Outcome (Content × Bytes)
read_by type file =
    if type == 0
    then (do (tag, rest) ← read_number 4 file; read_value tag rest)
    else if type == 1
    then read_code file
    else undefined

unfoldable pub read_content : Bytes → Outcome (Content × Bytes)
read_content file = do (type, rest) ← read_number 4 file; read_by type rest

-- The root does not get what was read.
unfoldable pub make_read : Store → Option ℕ → Bytes → Content → Outcome (ℕ × Store)
make_read st none name content = make_root_item st name
make_read st (some parent) name (plain v) = make_item st name parent value_item v []
make_read st (some parent) name (code b) = make_item st name parent code_item value_zero b

abbrev pub Reader : Type 0
Reader = Store → Bytes → Outcome (ℕ × Store × Bytes)

unfoldable pub read_children : Reader → ℕ → Store → Bytes → Outcome (Store × Bytes)
read_children read zero st file = ok (st, file)
read_children read (suc n) st file = do
  (child, st', rest) ← read st file
  read_children read n st' rest

-- The first argument bounds the depth of the tree.
unfoldable pub read_item : ℕ → Option ℕ → Reader
read_item zero parent st file = undefined
read_item (suc fuel) parent st file = do
  (name, rest) ← fread 33 file
  (content, rest1) ← read_content rest
  (numchildren, rest2) ← read_number 4 rest1
  (id, st1) ← make_read st parent (c_string (take 32 name)) content
  (st2, rest3) ← read_children (read_item fuel (some id)) numchildren st1 rest2
  ok (id, st2, rest3)

-- A file that does not open is `none`; every level of the tree takes a byte of the file at least.
unfoldable pub load_itemstore : Store → Option Bytes → Outcome (Option ℕ × Store)
load_itemstore st none = ok (none, st)
load_itemstore st (some file) = do
  (root, st', rest) ← read_item (length file) none st file
  ok (some root, st')

-- The file that `save_itemstore` leaves, where it opens.
unfoldable pub save_itemstore : ℕ → Store → ℕ → Outcome Bytes
save_itemstore fuel st root = write_item fuel st root
