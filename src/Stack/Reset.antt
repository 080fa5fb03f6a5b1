-- ===== src/Stack/Reset.antt =====
-- `reset_stack_to` and `reset_stack` of src/stack.c.
use sin.Prelude.{
  ℕ, zero, suc, ◌≤◌, ◌≡◌, List, [], ◌∷◌, ◌++◌, arith, length, length-append, if◌then◌else◌,
}
use sin.Prelude.Int.{ℤ, pos, pos_part, sub_ℕ, ◌-ℤ◌, ltb_ℤ}
use sin.Stack.{Stack, reset_stack_to, lower_to}
use sin.Stack.Contents.{contents, Registers, Holds}
use sin.Value.{Value}

-- The loop stops at the lower of the two, with as many rounds as they are apart.
pub lower_to-min :
    (fuel : ℕ) (top current : ℤ)
    → pos_part (current -ℤ top) ≤ fuel
    → lower_to fuel top current ≡ (if ltb_ℤ top current then top else current)
unfolding lower_to ◌-ℤ◌
lower_to-min zero top current h = ground arith
lower_to-min (suc fuel) top current h = ground (arith, lower_to-min fuel top (current -ℤ pos 1))

contents-suffix :
    (f : ℕ → Value) (ys xs : List Value)
    → contents f (length (ys ++ xs)) ≡ ys ++ xs
    → contents f (length xs) ≡ xs
contents-suffix f [] xs h = h
contents-suffix f (y ∷ ys) xs h = contents-suffix f ys xs (ground arith)

-- `reset_stack_to`, asked for the top of the values `xs`, leaves them and drops those above.
pub reset_stack_to-Holds :
    {r : Registers} (ys xs : List Value) {s : Stack}
    → Holds r (ys ++ xs) s
    → Holds r xs (reset_stack_to s (sub_ℕ (length xs) 1))
unfolding reset_stack_to
reset_stack_to-Holds ys xs {s} h =
    let low =
      lower_to-min (pos_part (s.current -ℤ sub_ℕ (length xs) 1)) (sub_ℕ (length xs) 1) s.current
        (omega arith) in
    let len = length-append ys xs in
    record {
      limit = h.limit;
      top = ground arith;
      fits = omega (arith, h.fits);
      values = contents-suffix s.cells ys xs h.values;
      frame = h.frame;
    }
