-- ===== src/Interpret/Machine/AssignCode.antt =====
-- `op_assigncodeitem` of src/interpret.c. The compiler behind `parse_source` is a bison grammar, and a
-- parameter of the model.
pub mod Source
use sin.Error.{err_comp_inuse}
use sin.Interpret.Code.{byte_at, bytes_at, little_endian}
use sin.Interpret.Host.{Host, called, saved_itemsource}
use sin.Interpret.Machine.{Machine, pop_value}
use sin.Items.ErrorItem.{set_error_item}
use sin.Items.FullName.{get_itemname, get_itemfilename}
use sin.Items.Walk.{find_item, insert_code_item, set_item}
use sin.Items.{Store, load}
use sin.Outcome.{Outcome, ok, undefined, ◌>>=◌, from_option}
use sin.Prelude.{
  ℕ, zero, suc, ◌+◌, ◌-◌, ◌*◌, Option, none, some, List, [], ◌∷◌, ◌++◌, map, length, ltb, leb, ◌==◌,
  if◌then◌else◌, Bytes, codes, c_string,
}
use sin.Value.{payload_s, value_nil}

-- What `parse_source` gives: the bytecode, or the error that it leaves in `local.errnum`.
pub data Compiled : Type 0 where
  compiled : Bytes → Compiled
  failed : ℕ → Compiled

-- From the source and the names of the parameters.
abbrev pub Compiler : Type 0
Compiler = Bytes → List Bytes → Compiled

-- The parameters up to the one of length 0, and the offset behind it. Each takes two bytes at least,
-- so the length of the code bounds the number of rounds.
unfoldable pub read_params : ℕ → Bytes → ℕ → Outcome (List Bytes × ℕ)
unfolding little_endian bytes_at
read_params zero code i = undefined
read_params (suc fuel) code i = do
  len ← little_endian 2 code i
  if len == 0 then ok ([], i + 2) else (do
    param ← bytes_at len code (i + 2)
    (params, next) ← read_params fuel code (i + 2 + len)
    ok (param ∷ params, next))

-- `local.id` holds 256 names.
abbrev pub params_fit : List Bytes → Outcome (Unit {0})
params_fit params = if leb (length params) 256 then ok tt else undefined

abbrev pub params_at : Bytes → ℕ → Outcome (List Bytes × ℕ)
params_at code nextop = do
  b ← byte_at code nextop
  if b == 80 then read_params (length code) code (nextop + 1) else ok ([], nextop)

-- An item that is in use is not replaced.
abbrev pub compile_unless_inuse :
    Compiler → Bytes → List Bytes → Store → Option ℕ → Outcome Compiled
compile_unless_inuse compiler source params st none = ok (compiler source params)
compile_unless_inuse compiler source params st (some i) = do
  item ← load st i
  if item.inuse
      then (do name ← get_itemname st.next st i; ok (failed err_comp_inuse))
      else ok (compiler source params)

-- `plen`, the bytes of all the parameters.
unfoldable pub params_length : List Bytes → ℕ
params_length [] = 0
params_length (p ∷ ps) = length p + params_length ps

-- The parameters with ", " between them.
unfoldable pub separated : List Bytes → Bytes
separated [] = []
separated (p ∷ ps) =
    let rest = separated ps in c_string p ++ elim ps [ [] ↦ [] | _ ∷ _ ↦ codes ", " ++ rest ]

unfoldable pub source_text : List Bytes → Bytes → Bytes
unfolding separated
source_text [] source = codes "code (" ++ (c_string source ++ codes ");\n")
source_text (p ∷ ps) source =
    codes "code {" ++ (separated (p ∷ ps) ++ (codes "} (" ++ (c_string source ++ codes ");\n")))

-- `len`, where `plen + 2 * (local.param_count - 1)` is below 0 without parameters.
unfoldable pub source_room : List Bytes → Bytes → ℕ
unfolding params_length
source_room params source = params_length params + 2 * length params + length source + 13 - 2

-- The buffer for the text has `len` bytes.
abbrev pub built_source : List Bytes → Bytes → Outcome Bytes
built_source params source =
    if ltb (length (source_text params source)) (source_room params source)
    then ok (source_text params source)
    else undefined

abbrev pub assign_compiled : Compiled → List Bytes → Bytes → Bytes → Machine → Outcome Machine
assign_compiled (failed errnum) params source name m = do
  store ← set_error_item m.store m.root errnum
  ok (record m { store = store })
assign_compiled (compiled bytecode) params source name m = do
  (inserted, store) ← insert_code_item m.store m.root name bytecode
  i ← from_option inserted
  src ← built_source params source
  filename ← get_itemfilename m.host.srcroot store i
  st1 ← set_item store m.root (codes "error") value_nil
  st2 ← set_item st1 m.root (codes "error.msg") value_nil
  ok (record m { store = st2; host = called m.host (saved_itemsource filename src) })

-- The source of a file that cannot be written is lost; the item is assigned all the same.
unfoldable pub op_assigncodeitem : Compiler → Bytes → ℕ → Machine → Outcome (ℕ × Machine)
op_assigncodeitem compiler code nextop m = do
  (params, next) ← params_at code nextop
  fits ← params_fit params
  (itemname, m1) ← pop_value m
  sclen ← little_endian 2 code next
  source ← bytes_at sclen code (next + 2)
  name ← payload_s itemname.payload
  test ← find_item m1.store m1.root name
  result ← compile_unless_inuse compiler source params m1.store test
  m2 ← assign_compiled result params source name m1
  ok (next + 2 + sclen, m2)
