-- ===== src/Interpret/Binary.antt =====
-- The opcodes that pop two values and push one.
use sin.Interpret.Code.{binary}
use sin.Outcome.{Outcome, ok, raised, Returns}
use sin.Prelude.{◌≤◌, ◌≡◌, List, [], ◌∷◌, arith, length}
use sin.Stack.Contents.{Registers, Holds, pop_stack-Holds, pop_stack-empty, push_stack-Holds}
use sin.Stack.{Stack}
use sin.Value.{Value}

module _ {r : Registers} (f : Value → Value → Outcome Value) where
  pub binary-Holds :
      (v1 v2 v : Value) (xs : List Value) {s : Stack}
      → f v1 v2 ≡ ok v
      → Holds r (v1 ∷ v2 ∷ xs) s
      → Returns (binary f s) (Holds r (v ∷ xs))
  unfolding binary
  binary-Holds v1 v2 v xs {s} e h =
      let (s1, p1, h1) = pop_stack-Holds v1 (v2 ∷ xs) h in
      let (s2, p2, h2) = pop_stack-Holds v2 xs h1 in
      let (s3, p3, h3) = push_stack-Holds xs v h2 (omega (arith, h.fits)) in
      (s3, rw (p1, p2, e) p3, h3)

  pub binary-short :
      (xs : List Value) {s : Stack} → length xs ≤ 1 → Holds r xs s → binary f s ≡ raised
  unfolding binary
  binary-short [] le h = rw (pop_stack-empty h)
  binary-short (v ∷ []) le h =
      let (s1, p1, h1) = pop_stack-Holds v [] h in rw (p1, pop_stack-empty h1)
  binary-short (v ∷ w ∷ xs) le h = absurd (omega arith)
