-- ===== src/Interpret/Arith/Mixed.antt =====
-- The arithmetic opcodes of src/interpret.c on operands that are not two ints.
use sin.Interpret.Arith.{
  add_values, op_add, op_subtract, op_multiply, op_divide, subtract_values, multiply_values,
  divide_values,
}
use sin.Interpret.Binary.{binary-Holds}
use sin.Outcome.{ok, undefined, Returns}
use sin.Prelude.{ℕ, ◌≡◌, refl, Bool, true, false, List, ◌∷◌, ◌++◌, arith, Bytes, ◌&&◌, ◌||◌, not}
use sin.Stack.Contents.{Registers, Holds, pop_stack-Holds}
use sin.Stack.{Stack}
use sin.Value.{ValueType, Value, int_value, str_value, value_nil, is_int, is_nil, is_str}

-- The operands that `op_add` takes for numbers.
abbrev is_number : ValueType → Bool
is_number t = is_nil t || is_int t

abbrev is_mixed : ValueType → ValueType → Bool
is_mixed t1 t2 = not (is_number t1 && is_number t2) && not (is_str t1 && is_str t2)

add_values-mixed :
    (v1 v2 : Value) → is_mixed v1.type v2.type ≡ true → add_values v1 v2 ≡ ok value_nil
unfolding add_values
add_values-mixed v1 v2 h = ground arith

not_int :
    (v1 v2 : Value)
    → is_int v1.type ≡ false
    → (subtract_values v1 v2 ≡ ok value_nil)
      × (multiply_values v1 v2 ≡ ok value_nil)
      × (divide_values v1 v2 ≡ ok (int_value 0))
unfolding subtract_values multiply_values divide_values
not_int v1 v2 h = ground arith

module _ {r : Registers} (xs : List Value) {s : Stack} where
  -- `op_add` of two strings pushes the lower one followed by the upper one.
  pub op_add-str :
      (s1 s2 : Bytes)
      → Holds r (str_value s1 ∷ str_value s2 ∷ xs) s
      → Returns (op_add s) (Holds r (str_value (s2 ++ s1) ∷ xs))
  unfolding op_add
  op_add-str s1 s2 h = binary-Holds _ (str_value s1) (str_value s2) _ xs refl h

  -- `op_add` of operands that are neither both nil or int nor both strings pushes nil.
  pub op_add-mixed :
      (v1 v2 : Value)
      → is_mixed v1.type v2.type ≡ true
      → Holds r (v1 ∷ v2 ∷ xs) s
      → Returns (op_add s) (Holds r (value_nil ∷ xs))
  unfolding op_add
  op_add-mixed v1 v2 m h = binary-Holds add_values v1 v2 _ xs (add_values-mixed v1 v2 m) h

  -- With a top that is no int, subtraction and multiplication push nil and division pushes 0.
  pub arith-not_int :
      (v1 v2 : Value)
      → is_int v1.type ≡ false
      → Holds r (v1 ∷ v2 ∷ xs) s
      → Returns (op_subtract s) (Holds r (value_nil ∷ xs))
        × Returns (op_multiply s) (Holds r (value_nil ∷ xs))
        × Returns (op_divide s) (Holds r (int_value 0 ∷ xs))
  unfolding op_subtract op_multiply op_divide
  arith-not_int v1 v2 n h =
      let (e1, e2, e3) = not_int v1 v2 n in
      (
        binary-Holds subtract_values v1 v2 _ xs e1 h,
        binary-Holds multiply_values v1 v2 _ xs e2 h,
        binary-Holds divide_values v1 v2 _ xs e3 h,
      )

  -- The bits of a string are an address, which subtraction and multiplication take for a number.
  pub arith-address :
      (a : ℕ) (c : Bytes)
      → Holds r (int_value a ∷ str_value c ∷ xs) s
      → (op_subtract s ≡ undefined) × (op_multiply s ≡ undefined)
  unfolding op_subtract op_multiply
  arith-address a c h =
      let (s1, p1, h1) = pop_stack-Holds (int_value a) (str_value c ∷ xs) h in
      let (s2, p2, h2) = pop_stack-Holds (str_value c) xs h1 in (rw (p1, p2) refl, rw (p1, p2) refl)
