-- ===== src/Interpret/Locals/RoundTrip.antt =====
-- What a program sees of its local variables (src/interpret.c).
use sin.Interpret.Code.{byte_at}
use sin.Interpret.Locals.Frame.{
  at_cell, set_cell, cell_of, length-set_cell, at_cell-set_cell, op_getlocal-Holds,
  op_savelocal-Holds,
}
use sin.Interpret.Locals.{op_savelocal, op_getlocal}
use sin.Outcome.{ok, ◌>>=◌}
use sin.Prelude.Int.{pos}
use sin.Prelude.{ℕ, ◌+◌, ◌<◌, ◌≤◌, ◌≡◌, List, ◌∷◌, arith, length, Bytes}
use sin.Stack.Contents.{Registers, Holds}
use sin.Stack.{Stack, stack_size}
use sin.Value.{Value, int_value}

module _ {r : Registers} (code : Bytes) (nextop i b : ℕ) (operand : byte_at code nextop ≡ ok i)
    (based : r.base ≡ pos b) (xs : List Value) {s : Stack} where
  -- A value that `op_savelocal` stores is what `op_getlocal` pushes for the same local.
  pub getlocal-savelocal :
      (v : Value)
      → Holds r (v ∷ xs) s
      → cell_of b i < length xs
      → (s' : Stack) × (op_savelocal code nextop s >>= (λ t. op_getlocal code nextop t.1)
          ≡ ok (nextop + 1, s'))
        × Holds r (v ∷ set_cell xs (cell_of b i) v) s'
  getlocal-savelocal v h lt =
      let k = cell_of b i in
      let (s1, e1, h1, _, _) = op_savelocal-Holds code nextop i b operand based xs v h lt in
      let len = length-set_cell xs k v in
      let (s2, e2, h2) =
        op_getlocal-Holds code nextop i b operand based (set_cell xs k v) h1 (omega arith)
          (omega (arith, h.fits)) in
      (s2, rw e1 e2, rw (at_cell-set_cell xs k v (int_value 0) lt) at h2)

  -- In a frame that starts at cell 256 or above, the cut index lies below the frame: the local that
  -- is read belongs to another frame.
  pub getlocal-foreign :
      Holds r xs s
      → 256 ≤ b
      → b ≤ length xs
      → length xs < stack_size
      → (k : ℕ) × (k < b)
        × (s' : Stack) × (op_getlocal code nextop s ≡ ok (nextop + 1, s'))
        × Holds r (at_cell xs k (int_value 0) ∷ xs) s'
  getlocal-foreign h high le room =
      let (s', e, h') = op_getlocal-Holds code nextop i b operand based xs h (omega arith) room in
      (cell_of b i, omega arith, s', e, h')
