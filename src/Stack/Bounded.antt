-- ===== src/Stack/Bounded.antt =====
-- src/stack.c as an implementation of a list of at most `stack_size` values, the top first.
use sin.Outcome.{Outcome, ok, raised, undefined, Returns}
use sin.Prelude.{
  ◌≡◌, refl, List, [], ◌∷◌, arith, length, ltb, if◌then◌else◌, ltb→lt, Bool-cases, inl, inr,
}
use sin.Stack.Contents.{
  Registers, Holds, push_stack-Holds, push_stack-full, pop_stack-Holds, pop_stack-empty,
}
use sin.Stack.{Stack, stack_size, push_stack, pop_stack}
use sin.Value.{Value}

-- The abstract stack.
abbrev pub push : Value → List Value → Outcome (List Value)
push v xs = if ltb (length xs) stack_size then ok (v ∷ xs) else raised

abbrev pub pop : List Value → Outcome (Value × List Value)
pop [] = raised
pop (x ∷ xs) = ok (x, xs)

-- `m` does what `spec` says, and where that returns, the results are related.
abbrev pub Refines : {A B : Type 0} → (A → B → Type 0) → Outcome A → Outcome B → Type 0
Refines R (ok a) m = Returns m (R a)
Refines R raised m = m ≡ raised
Refines R undefined m = m ≡ undefined

abbrev pub HoldsBelow : Registers → Value × List Value → Value × Stack → Type 0
HoldsBelow r (x, xs) (v, s) = (v ≡ x) × Holds r xs s

-- On a stack that holds `xs`, `push_stack` does what `push` does to `xs`, its error at
-- `stack_size` values included, and keeps the registers.
pub push_stack-Refines :
    {r : Registers} (v : Value) (xs : List Value) {s : Stack}
    → Holds r xs s
    → Refines (Holds r) (push v xs) (push_stack s v)
push_stack-Refines {r} v xs {s} h = elim (Bool-cases (ltb (length xs) stack_size)) [
  | inl room ↦ rw room (push_stack-Holds xs v h (ltb→lt _ _ room))
  | inr full ↦ rw full (push_stack-full xs v h (let f = h.fits in ground arith))
]

-- On a stack that holds `xs`, `pop_stack` does what `pop` does to `xs`, its error on no value
-- included, and keeps the registers.
pub pop_stack-Refines :
    {r : Registers} (xs : List Value) {s : Stack}
    → Holds r xs s
    → Refines (HoldsBelow r) (pop xs) (pop_stack s)
pop_stack-Refines [] h = pop_stack-empty h
pop_stack-Refines (x ∷ xs) h = let (s', e, h') = pop_stack-Holds x xs h in ((x, s'), e, (refl, h'))
