-- ===== src/Tests/Stacks.antt =====
-- Stacks with given values, for the runs.
use sin.Interpret.Locals.Frame.{at_cell}
use sin.Prelude.{ℕ, ◌-◌, ◌≤◌, ◌≡◌, refl, List, length}
use sin.Prelude.Int.{pos, sub_ℕ}
use sin.Stack.Contents.{Registers, Holds, contents}
use sin.Stack.{Stack, stack_size}
use sin.Value.{Value, value_zero}

-- Registers of a frame at the bottom, and of one with `n` locals at cell `b`.
abbrev pub at_bottom : Registers
at_bottom = record { base = pos 0; locals = 0; params = 0 }

abbrev pub frame_at : ℕ → ℕ → Registers
frame_at b n = record { base = pos b; locals = n; params = 0 }

abbrev pub stack_of : Registers → List Value → Stack
stack_of r xs = record {
  max = pos (stack_size - 1);
  current = sub_ℕ (length xs) 1;
  base = r.base;
  locals = r.locals;
  params = r.params;
  cells = λ i. at_cell xs i value_zero;
}

pub stack_of-Holds :
    (r : Registers) (xs : List Value)
    → length xs ≤ stack_size
    → contents (λ i. at_cell xs i value_zero) (length xs) ≡ xs
    → Holds r xs (stack_of r xs)
stack_of-Holds r xs fits e = record {
  limit = refl;
  top = refl;
  fits = fits;
  values = e;
  frame = refl;
}
