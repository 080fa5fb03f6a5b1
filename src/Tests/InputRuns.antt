-- ===== src/Tests/InputRuns.antt =====
-- A run of `lc_net_input` (src/libcall.c).
use sin.HashTable.{HashTable}
use sin.Interpret.Machine.{Machine}
use sin.Items.{Item, Store, value_item}
use sin.Network.{Line, idle, data_ready, empty_line}
use sin.Prelude.{
  ℕ, ◌≡◌, Option, none, some, [], ◌∷◌, ◌++◌, set, replicate, ◌==◌, if◌then◌else◌, Bytes, codes,
}
use sin.Tests.ItemRuns.{root_item, item_of, no_children}
use sin.Tests.MachineRuns.{quiet_host}
use sin.Tests.Stacks.{at_bottom, stack_of}
use sin.Value.{value_nil}
use sin.Vm.{make_callstack}

-- A root with the children `l` and `t`, which are values.
abbrev children : HashTable ℕ
children = record {
  size = 16;
  table =
      set (set (replicate 16 []) 12 (record { key = codes "l"; child = 1 } ∷ [])) 4
        (record { key = codes "t"; child = 2 } ∷ []);
}

abbrev top : Item
top = record root_item { children = children; ordered_array = 1 ∷ 2 ∷ [] }

abbrev leaf : Bytes → Item
leaf name = item_of name value_item value_nil (some []) no_children []

abbrev input_store : Store
input_store = record {
  items = λ i.
      if 0 == i
      then some top
      else if 1 == i
      then some (leaf (codes "l"))
      else if 2 == i
      then some (leaf (codes "t"))
      else none;
  next = 3;
}

data Place (i : ℕ) (o : Option Item) : Type 0 where
  at_top : o ≡ some top → Place i o
  at_leaf : (name : Bytes) → o ≡ some (leaf name) → Place i o
  outside : o ≡ none → Place i o

-- The second of two lines has text.
abbrev text_line : Line
text_line = record (empty_line 1) {
  line_handle = 12;
  status = data_ready;
  inbuf = record { bytes = codes "look" ++ (10 ∷ codes "s"); size = 16384 };
}

abbrev input_machine : Machine
unfolding make_callstack
input_machine = record {
  vm = record { stack = stack_of at_bottom []; callstack = make_callstack };
  store = input_store;
  root = 0;
  host = record quiet_host {
    lines = record (empty_line 0) { line_handle = 11; status = idle } ∷ text_line ∷ [];
    lastconn = 0;
    inputline = codes "l";
    inputtext = codes "t";
  };
}
