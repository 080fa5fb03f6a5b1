-- ===== src/Libcall/Net/Input.antt =====
-- What `lc_net_input` (src/libcall.c) does with a line of text that has come in.
use sin.Interpret.Machine.{Machine}
use sin.Items.Valid.{IsStore}
use sin.Items.{Item}
use sin.Network.{Line, idle, inbuf_length, strchr, newline}
use sin.Prelude.{ℕ, ◌≡◌, some, List, ◌∷◌, set, if◌then◌else◌, Bytes}
use sin.Stack.Contents.{Registers, Holds}
use sin.Value.{Value, int_value, str_value}

-- The line after its first text was taken.
abbrev pub taken : Line → Bytes → Line
taken line after = record line {
  inbuf = record { bytes = after; size = inbuf_length };
  status = if strchr newline after then line.status else idle;
}

pub record HasInput (r : Registers) (m : Machine) (l i j : ℕ) (line : Line) (text after : Bytes)
    (xs : List Value) (m' : Machine) : Type 0 where
  pub stack : Holds r (int_value 3 ∷ xs) m'.vm.stack
  pub lastconn : m'.host.lastconn ≡ l
  pub lines : m'.host.lines ≡ set m.host.lines l (taken line after)
  pub store : IsStore m'.store
  pub line_item : Item
  pub line_at : m'.store.items i ≡ some line_item
  pub line_value : line_item.value ≡ int_value l
  pub text_item : Item
  pub text_at : m'.store.items j ≡ some text_item
  pub text_value : text_item.value ≡ str_value text
