-- ===== src/Interpret/Machine/Assemble.antt =====
-- `op_assembleitem` of src/interpret.c, which puts the layers of a name together.
pub mod Layers
use sin.Interpret.Code.{byte_at, bytes_at}
use sin.Interpret.Machine.{Machine, with_stack, push_value, pop_value}
use sin.Items.Names.{dot, is_valid_layer}
use sin.Items.Walk.{find_item}
use sin.Items.{Item, load}
use sin.Itoa.{itoa}
use sin.Outcome.{Outcome, ok, undefined, ◌>>=◌}
use sin.Prelude.Int.{pos, ◌+ℤ◌}
use sin.Prelude.{
  c_string, ℕ, zero, suc, ◌+◌, ◌*◌, ◌%◌, ◌^◌, Bool, true, false, Option, none, some, List, [], ◌∷◌,
  ◌++◌, length, leb, ◌==◌, if◌then◌else◌, Bytes,
}
use sin.Stack.{Stack, read_cell}
use sin.Value.{
  ValueType, int, str, nil, bool, Value, str_value, value_nil, payload_i, payload_s, is_str,
}

-- `itemname`: the text, the variable `size` and the bytes that are allocated.
pub record NameBuffer : Type 0 where
  pub text : Bytes
  pub size : ℕ
  pub allocated : ℕ

abbrev pub new_buffer : NameBuffer
new_buffer = record { text = []; size = 128; allocated = 130 }

-- `strcat`, which is undefined where the text and its null do not fit.
unfoldable pub strcat : NameBuffer → Bytes → Outcome NameBuffer
strcat b added =
    if leb (length b.text + length added + 1) b.allocated
    then ok (record b { text = b.text ++ added })
    else undefined

-- The buffer is grown once, by what `s` asks for.
unfoldable pub append_layer : NameBuffer → ℕ → Bytes → Outcome NameBuffer
append_layer b s added =
    if leb b.size (length b.text + s + 2)
    then strcat (record b { size = b.size * 2 + 2; allocated = b.size * 2 + 2 }) added
    else strcat b added

-- The text that a value gives to a layer, or none where the name becomes invalid. The `int64_t` is
-- cut to the `int` that `itoa` takes.
abbrev pub layer_by : ValueType → Value → Outcome (Option Bytes)
layer_by str v = do s ← payload_s v.payload; ok (if is_valid_layer s then some s else none)
layer_by int v = do i ← payload_i v.payload; digits ← itoa (i % 2 ^ 32); ok (some digits)
layer_by nil v = ok none
layer_by bool v = ok none

-- Where a layer ends: the next byte, the machine, and the name unless it is invalid.
pub record Progress : Type 0 where
  pub nextop : ℕ
  pub machine : Machine
  pub name : NameBuffer
  pub invalid : Bool

abbrev pub add_layer : ℕ → Machine → NameBuffer → Option Bytes → Outcome Progress
add_layer nextop m b none = ok (record { nextop = nextop; machine = m; name = b; invalid = true })
add_layer nextop m b (some s) = do
  b' ← append_layer b (length s) s
  ok (record { nextop = nextop; machine = m; name = b'; invalid = false })

unfoldable pub simple_layer : Bytes → ℕ → Machine → NameBuffer → Outcome Progress
simple_layer code nextop m b = do
  s ← byte_at code nextop
  layer ← bytes_at s code (nextop + 1)
  b' ← append_layer b s (c_string layer)
  ok (record { nextop = nextop + 1 + s; machine = m; name = b'; invalid = false })

-- The index is an `int` here.
unfoldable pub local_layer : Bytes → ℕ → Machine → NameBuffer → Outcome Progress
local_layer code nextop m b = do
  index ← byte_at code nextop
  v ← read_cell m.vm.stack (pos index +ℤ m.vm.stack.base)
  layer ← layer_by v.type v
  add_layer (nextop + 1) m b layer

abbrev pub item_layer : Machine → Option ℕ → Outcome (Option Bytes)
item_layer m none = ok none
item_layer m (some i) = do item ← load m.store i; layer_by item.value.type item.value

-- The item whose name the inner assembly has pushed.
unfoldable pub deref_layer : ℕ → Machine → NameBuffer → Outcome Progress
deref_layer nextop m b = do
  (layername, m1) ← pop_value m
  if is_str layername.type
      then (do
        name ← payload_s layername.payload
        i ← find_item m1.store m1.root name
        layer ← item_layer m1 i
        add_layer nextop m1 b layer)
      else add_layer nextop m1 b none

-- The end of a round: a dot before another layer.
abbrev pub separate : ℕ → Progress → Outcome Progress
separate next p =
    if next == 69 then ok p else (do name ← strcat p.name (dot ∷ []); ok (record p { name = name }))

-- The end of the helper pushes the name or nil. Where the name became invalid before its last
-- layer, the byte behind `nextop` is not the end of the name.
unfoldable pub finish : Progress → Outcome (ℕ × Machine)
finish p = do
  m ← push_value p.machine (if p.invalid then value_nil else str_value p.name.text)
  ok (p.nextop + 1, m)

abbrev pub Helper : Type 0
Helper = Bytes → ℕ → Machine → Outcome (ℕ × Machine)

-- One layer, whose kind byte is at `nextop`; `helper` assembles a name inside it.
unfoldable pub one_layer : Helper → Bytes → ℕ → Machine → NameBuffer → Outcome Progress
one_layer helper code nextop m b = do
  kind ← byte_at code nextop
  if kind == 76
      then simple_layer code (nextop + 1) m b
      else if kind == 68
      then (do
        what ← byte_at code (nextop + 1)
        if what == 86
            then local_layer code (nextop + 2) m b
            else if what == 73
            then (do (nextop', m') ← helper code (nextop + 2) m; deref_layer nextop' m' b)
            else add_layer (nextop + 2) m b none)
      else add_layer (nextop + 1) m b none

abbrev pub start : ℕ → Machine → Progress
start nextop m = record { nextop = nextop; machine = m; name = new_buffer; invalid = false }

-- `while (*nextop != 'E' && !invalid)`. Each round and each inner name takes a byte of the code at
-- least, so a fuel of its length is enough; without fuel the result is `undefined`.
unfoldable pub assemble : ℕ → Bytes → Progress → Outcome Progress
assemble zero code p = undefined
assemble (suc fuel) code p =
    let inner : Helper = λ c nextop m. assemble fuel c (start nextop m) >>= finish in
    do
      next ← byte_at code p.nextop
      if next == 69 then ok p else if p.invalid then ok p else (do
        q ← one_layer inner code p.nextop p.machine p.name
        after ← byte_at code q.nextop
        q' ← separate after q
        assemble fuel code q')

unfoldable pub assembleitem_helper : ℕ → Helper
assembleitem_helper fuel code nextop m = assemble fuel code (start nextop m) >>= finish

unfoldable pub op_assembleitem : Bytes → ℕ → Machine → Outcome (ℕ × Machine)
op_assembleitem code nextop m = assembleitem_helper (length code + 1) code nextop m
