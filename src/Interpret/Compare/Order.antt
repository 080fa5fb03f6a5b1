-- ===== src/Interpret/Compare/Order.antt =====
-- The four orders of src/interpret.c against the order of the integers.
use sin.Interpret.Binary.{binary-Holds}
use sin.Interpret.Compare.{
  order_by, op_lessthan, op_lessthanorequal, op_greaterthan, op_greaterthanorequal,
}
use sin.Outcome.{ok, Returns}
use sin.Prelude.Int.{ltb_ℤ, leb_ℤ}
use sin.Prelude.{ℕ, ◌≡◌, refl, ap, Bool, false, List, ◌∷◌, ◌<◌, ◌^◌, ◌&&◌}
use sin.Stack.Contents.{Registers, Holds}
use sin.Stack.{Stack}
use sin.Value.{ValueType, int, bool, Value, bool_value, int_value, is_int, is_bool}
use sin.Word.Signed.{lt64-ltb_ℤ, le64-leb_ℤ}
use sin.Word.{signed64}

-- The four opcodes push four tests.
abbrev pub Pushes : Registers → List Value → Stack → Bool → Bool → Bool → Bool → Type 0
Pushes r xs s lt le gt ge =
    Returns (op_lessthan s) (Holds r (bool_value lt ∷ xs))
    × Returns (op_lessthanorequal s) (Holds r (bool_value le ∷ xs))
    × Returns (op_greaterthan s) (Holds r (bool_value gt ∷ xs))
    × Returns (op_greaterthanorequal s) (Holds r (bool_value ge ∷ xs))

module _ {r : Registers} (xs : List Value) {s : Stack} where
  -- On two ints, the second from the top on the left, `op_lessthan` and the three other comparisons push
  -- the orders of the signed numbers.
  pub orders-int :
      (w1 w2 : ℕ)
      → w1 < 2 ^ 64
      → w2 < 2 ^ 64
      → Holds r (int_value w1 ∷ int_value w2 ∷ xs) s
      → let a = signed64 w2 in
        let b = signed64 w1 in Pushes r xs s (ltb_ℤ a b) (leb_ℤ a b) (ltb_ℤ b a) (leb_ℤ b a)
  unfolding op_lessthan op_lessthanorequal op_greaterthan op_greaterthanorequal
  orders-int w1 w2 h1 h2 h = (
    binary-Holds _ _ _ _ xs (ap (λ b. ok (bool_value b)) (lt64-ltb_ℤ w2 w1 h2 h1)) h,
    binary-Holds _ _ _ _ xs (ap (λ b. ok (bool_value b)) (le64-leb_ℤ w2 w1 h2 h1)) h,
    binary-Holds _ _ _ _ xs (ap (λ b. ok (bool_value b)) (lt64-ltb_ℤ w1 w2 h1 h2)) h,
    binary-Holds _ _ _ _ xs (ap (λ b. ok (bool_value b)) (le64-leb_ℤ w1 w2 h1 h2)) h,
  )

order_by-mixed :
    (test : ℕ → ℕ → Bool) (t1 t2 : ValueType) (v1 v2 : Value)
    → (is_int t1 && is_int t2) ≡ false
    → (is_bool t1 && is_bool t2) ≡ false
    → order_by test t1 t2 v1 v2 ≡ ok false
order_by-mixed test int int v1 v2 h k = cc
order_by-mixed test bool bool v1 v2 h k = cc
order_by-mixed test t1 t2 v1 v2 h k = refl

module _ {r : Registers} (xs : List Value) {s : Stack} where
  -- On values that are neither two ints nor two bools all four are false: the orders are no
  -- total order there.
  pub orders-mixed :
      (v1 v2 : Value)
      → (is_int v1.type && is_int v2.type) ≡ false
      → (is_bool v1.type && is_bool v2.type) ≡ false
      → Holds r (v1 ∷ v2 ∷ xs) s
      → Pushes r xs s false false false false
  unfolding op_lessthan op_lessthanorequal op_greaterthan op_greaterthanorequal
  orders-mixed v1 v2 m n h = (
    binary-Holds _ v1 v2 _ xs (rw (order_by-mixed _ v1.type v2.type v1 v2 m n) refl) h,
    binary-Holds _ v1 v2 _ xs (rw (order_by-mixed _ v1.type v2.type v1 v2 m n) refl) h,
    binary-Holds _ v1 v2 _ xs (rw (order_by-mixed _ v1.type v2.type v1 v2 m n) refl) h,
    binary-Holds _ v1 v2 _ xs (rw (order_by-mixed _ v1.type v2.type v1 v2 m n) refl) h,
  )
