-- ===== src/Value/Truth.antt =====
-- How `convert_to_bool` (src/value.c) reads a value as a truth value.
use sin.Outcome.{ok}
use sin.Prelude.{◌≡◌, refl, Bool, true, false, not, ◌==◌, arith}
use sin.Value.{
  ValueType, int, str, nil, bool, Payload, word, text, Value, bool_value, IsTagged, convert_to_bool,
  convert_by, PayloadFits,
}

-- The truth of a value in `and`, `or` and `not`: bools and ints by their bits, every string true,
-- nil false.
abbrev pub truth : ValueType → Payload → Bool
truth str p = true
truth nil p = false
truth int (word w) = not (w == 0)
truth bool (word w) = not (w == 0)
truth _ (text s) = false

abbrev pub is_true : Value → Bool
is_true v = truth v.type v.payload

convert_by-truth :
    (t : ValueType) (p : Payload)
    → PayloadFits t p
    → convert_by t (record { type = t; payload = p }) ≡ ok (bool_value (truth t p))
convert_by-truth int (word w) h = ground arith
convert_by-truth bool (word w) h = ground arith
convert_by-truth str p h = refl
convert_by-truth nil p h = refl
convert_by-truth int (text s) h = elim h [ ]
convert_by-truth bool (text s) h = elim h [ ]

pub convert_to_bool-is_true :
    (v : Value) → IsTagged v → convert_to_bool v ≡ ok (bool_value (is_true v))
unfolding convert_to_bool
convert_to_bool-is_true v h = convert_by-truth v.type v.payload h
