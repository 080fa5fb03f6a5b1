-- ===== src/Interpret/Logic/Truth.antt =====
-- The logical opcodes of src/interpret.c as operations on truth values.
use sin.Interpret.Binary.{binary-Holds}
use sin.Interpret.Logic.{negate_by, op_logicalnot, logical, op_logicaland, op_logicalor}
use sin.Interpret.Code.{little_endian, jump_by}
use sin.Interpret.Control.{jump_test, op_jumpfalse}
use sin.Outcome.{ok, ◌>>=◌, Returns}
use sin.Prelude.{
  ℕ, ◌≡◌, ◌≢◌, ◌↔◌, refl, ap, Bool, true, false, not, List, [], ◌∷◌, ◌==◌, if◌then◌else◌, arith,
  Bytes, ◌&&◌, ◌||◌, ◌+◌,
}
use sin.Stack.Contents.{Registers, Holds, read_top, write_top-Holds, pop_stack-Holds}
use sin.Stack.{Stack, read_cell, write_cell}
use sin.Value.Truth.{is_true, truth, convert_to_bool-is_true}
use sin.Value.{
  ValueType, int, str, nil, bool, Payload, word, text, Value, bool_value, str_value,
  convert_to_bool, PayloadFits, IsTagged, is_str,
}

logical-eq :
    (test : Bool → Bool → Bool) (v1 v2 : Value)
    → IsTagged v1
    → IsTagged v2
    → logical test v1 v2 ≡ ok (bool_value (test (is_true v1) (is_true v2)))
unfolding logical
logical-eq test v1 v2 h1 h2 =
    rw (convert_to_bool-is_true v1 h1, convert_to_bool-is_true v2 h2)
      (bits (is_true v1) (is_true v2))
  where
    bits :
        (a b : Bool)
        → ok (bool_value (test (not ((if a then 1 else 0) == 0)) (not ((if b then 1 else 0) == 0))))
          ≡ ok (bool_value (test a b))
    bits true true = refl
    bits true false = refl
    bits false true = refl
    bits false false = refl

negate_by-eq :
    (t : ValueType) (p : Payload)
    → PayloadFits t p
    → negate_by t (record { type = t; payload = p }) ≡ ok (bool_value (not (truth t p)))
negate_by-eq int (word w) h = ground arith
negate_by-eq bool (word w) h = ground arith
negate_by-eq str p h = refl
negate_by-eq nil p h = refl
negate_by-eq int (text s) h = elim h [ ]
negate_by-eq bool (text s) h = elim h [ ]

module _ {r : Registers} (xs : List Value) {s : Stack} where
  -- `and` and `or` push the conjunction and the disjunction of the truth of two tagged values.
  pub logical-truth :
      (v1 v2 : Value)
      → IsTagged v1
      → IsTagged v2
      → Holds r (v1 ∷ v2 ∷ xs) s
      → Returns (op_logicaland s) (Holds r (bool_value (is_true v1 && is_true v2) ∷ xs))
        × Returns (op_logicalor s) (Holds r (bool_value (is_true v1 || is_true v2) ∷ xs))
  unfolding op_logicaland op_logicalor
  logical-truth v1 v2 h1 h2 h = (
    binary-Holds _ v1 v2 _ xs (logical-eq (λ a b. a && b) v1 v2 h1 h2) h,
    binary-Holds _ v1 v2 _ xs (logical-eq (λ a b. a || b) v1 v2 h1 h2) h,
  )

  -- `not` replaces a tagged value by the negation of its truth.
  pub op_logicalnot-truth :
      (v : Value)
      → IsTagged v
      → Holds r (v ∷ xs) s
      → Returns (op_logicalnot s) (Holds r (bool_value (not (is_true v)) ∷ xs))
  unfolding op_logicalnot read_cell write_cell
  op_logicalnot-truth v tagged h =
      rw (read_top v xs h, negate_by-eq v.type v.payload tagged) (write_top-Holds v _ xs h)

abbrev is_no_text : Payload → Bool
is_no_text (text []) = true
is_no_text _ = false

-- The truth that a jump sees: the empty string is false to it.
abbrev pub jump_truth : Value → Bool
jump_truth v = is_true v && not (is_str v.type && is_no_text v.payload)

jump_test-eq :
    (t : ValueType) (p : Payload)
    → PayloadFits t p
    → jump_test t (record { type = t; payload = p })
      ≡ ok (jump_truth (record { type = t; payload = p }))
jump_test-eq int (word w) h = ground arith
jump_test-eq bool (word w) h = ground arith
jump_test-eq nil p h = refl
jump_test-eq str (text []) h = refl
jump_test-eq str (text (c ∷ s)) h = refl
jump_test-eq int (text s) h = elim h [ ]
jump_test-eq bool (text s) h = elim h [ ]
jump_test-eq str (word w) h = elim h [ ]

-- `op_jumpfalse` pops a tagged value, and goes on behind its operand where the value is true to
-- `not`, `and` and `or` and is not the empty string; otherwise it jumps by the operand.
pub op_jumpfalse-jump_truth :
    {r : Registers} (code : Bytes) (nextop : ℕ) (v : Value) (xs : List Value) {s : Stack}
    → IsTagged v
    → Holds r (v ∷ xs) s
    → (s' : Stack) × Holds r xs s'
      × (op_jumpfalse code nextop s ≡ (
          if jump_truth v
          then ok (nextop + 2, s')
          else (little_endian 2 code nextop >>= λ offset.
              jump_by nextop offset >>= λ target. ok (target, s'))))
unfolding op_jumpfalse
op_jumpfalse-jump_truth code nextop v xs tagged h =
    let (s', e, h') = pop_stack-Holds v xs h in
    (s', h', rw (e, jump_test-eq v.type v.payload tagged))

abbrev Agrees : Value → Type 0
Agrees v = (jump_truth v ≡ is_true v) ↔ (v ≢ str_value [])

agrees : (t : ValueType) (p : Payload) → PayloadFits t p → Agrees (record { type = t; payload = p })
agrees str (text []) h = (λ e. cc, λ n. absurd (n refl))
agrees str (text (c ∷ s)) h = (λ e q. cc, λ n. refl)
agrees int (word w) h = (λ e q. cc, λ n. ground arith)
agrees bool (word w) h = (λ e q. cc, λ n. ground arith)
agrees nil p h = (λ e q. cc, λ n. refl)
agrees int (text s) h = elim h [ ]
agrees bool (text s) h = elim h [ ]
agrees str (word w) h = elim h [ ]

bool_value_inj : (a b : Bool) → ok (bool_value a) ≡ ok (bool_value b) → a ≡ b
bool_value_inj true true e = refl
bool_value_inj true false e = cc
bool_value_inj false true e = cc
bool_value_inj false false e = refl

-- On a tagged value the test of `op_jumpfalse` and `convert_to_bool` agree exactly where the value
-- is not the empty string.
pub jump_test-convert_to_bool :
    (v : Value)
    → IsTagged v
    → ((jump_test v.type v >>= (λ b. ok (bool_value b))) ≡ convert_to_bool v) ↔ (v ≢ str_value [])
jump_test-convert_to_bool v h =
    let (there, back) = agrees v.type v.payload h in
    rw (jump_test-eq v.type v.payload h, convert_to_bool-is_true v h)
      (
        λ e. there (bool_value_inj (jump_truth v) (is_true v) e),
        λ n. ap (λ b. ok (bool_value b)) (back n),
      )
