-- ===== src/Value.antt =====
-- src/value.h and src/value.c: the values of the language, a type tag beside a union.
pub mod Truth
use sin.Outcome.{Outcome, ok, undefined, ◌>>=◌}
use sin.Prelude.{ℕ, ◌^◌, ◌<◌, Bool, true, false, ◌==◌, if◌then◌else◌, Bytes}

-- `VALUE_e`
pub data ValueType : Type 0 where
  int str nil bool : ValueType

-- The union of `VALUE_t`: the bits of an `int64_t`, or a pointer to a string, which stands for the
-- bytes that it points to.
pub data Payload : Type 0 where
  word : ℕ → Payload
  text : Bytes → Payload

-- `VALUE_t`
pub record Value : Type 0 where
  pub type : ValueType
  pub payload : Payload

abbrev pub int_value : ℕ → Value
int_value w = record { type = int; payload = word w }

abbrev pub str_value : Bytes → Value
str_value s = record { type = str; payload = text s }

abbrev pub bool_value : Bool → Value
bool_value b = record { type = bool; payload = word (if b then 1 else 0) }

abbrev pub value_nil : Value
value_nil = record { type = nil; payload = word 0 }

abbrev pub value_true : Value
value_true = bool_value true

abbrev pub value_false : Value
value_false = bool_value false

abbrev pub value_zero : Value
value_zero = int_value 0

-- `v.i`: of a pointer this is an address, which no program may rely on.
abbrev pub payload_i : Payload → Outcome ℕ
payload_i (word w) = ok w
payload_i (text s) = undefined

-- `v.s` at a use that dereferences it: a word is no pointer to a string.
abbrev pub payload_s : Payload → Outcome Bytes
payload_s (word w) = undefined
payload_s (text s) = ok s

abbrev pub is_int : ValueType → Bool
is_int int = true
is_int _ = false

abbrev pub is_str : ValueType → Bool
is_str str = true
is_str _ = false

abbrev pub is_nil : ValueType → Bool
is_nil nil = true
is_nil _ = false

abbrev pub is_bool : ValueType → Bool
is_bool bool = true
is_bool _ = false

-- `switch (from.type)` of `convert_to_bool`
abbrev pub convert_by : ValueType → Value → Outcome Value
convert_by bool v = ok v
convert_by int v = do i ← payload_i v.payload; ok (if i == 0 then value_false else value_true)
convert_by str v = ok value_true
convert_by nil v = ok value_false

unfoldable pub convert_to_bool : Value → Outcome Value
convert_to_bool v = convert_by v.type v

-- A value whose union holds what its tag says. A nil keeps whatever was there.
abbrev pub PayloadFits : ValueType → Payload → Type 0
PayloadFits int (word w) = w < 2 ^ 64
PayloadFits str (text s) = Unit
PayloadFits bool (word w) = w < 2
PayloadFits nil p = Unit
PayloadFits _ _ = ⊥

abbrev pub IsTagged : Value → Type 0
IsTagged v = PayloadFits v.type v.payload
