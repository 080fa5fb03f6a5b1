-- ===== src/Interpret/Machine/Fetch.antt =====
-- A call of a code item through `op_fetchitem` (src/interpret.c).
use sin.Interpret.Code.{little_endian}
use sin.Interpret.Machine.Assign.{pop_value-Holds, push_value-Holds}
use sin.Interpret.Machine.{
  Machine, with_stack, push_value, pop_value, throw_away, push_nils, Interpreter, params_of,
  call_item, fetch_by, op_fetchitem,
}
use sin.Items.Walk.{find_item}
use sin.Items.{value_item, code_item, Item, load}
use sin.Outcome.{Outcome, ok, Returns}
use sin.Prelude.Int.{pos}
use sin.Prelude.{
  ℕ, zero, suc, ◌+◌, ◌-◌, ◌<◌, ◌≤◌, ◌≡◌, refl, ap, ◌∙◌, sym, some, List, [], ◌∷◌, ◌++◌, length,
  length-append, replicate, Bytes, arith,
}
use sin.Stack.Contents.{Registers, Holds, push_stack-Holds, throwaway_stack-Holds}
use sin.Stack.{Stack, stack_size}
use sin.Value.{Value, str_value, value_nil}
use sin.Vm.Frames.{IsAt, push_callstack-Called, call-return}
use sin.Vm.{Frame, Vm, callstack_size, push_callstack, pop_callstack}

abbrev pub drop_values : ℕ → List Value → List Value
drop_values zero xs = xs
drop_values (suc n) [] = []
drop_values (suc n) (x ∷ xs) = drop_values n xs

-- The arguments that a callee of `n` parameters gets, with the last one first: the last ones go where
-- there are too many, and nils follow where there are too few.
abbrev pub fitted : ℕ → List Value → List Value
fitted n args = replicate (n - length args) value_nil ++ drop_values (length args - n) args

length-drop_values : (k : ℕ) (xs : List Value) → length (drop_values k xs) ≡ length xs - k
length-drop_values zero xs = omega arith
length-drop_values (suc k) [] = omega arith
length-drop_values (suc k) (x ∷ xs) = length-drop_values k xs ∙ omega arith

length-nils : (k : ℕ) (xs : List Value) → length (replicate k value_nil ++ xs) ≡ k + length xs
length-nils zero xs = omega arith
length-nils (suc k) xs = ap suc (length-nils k xs) ∙ omega arith

length-fitted : (n : ℕ) (args : List Value) → length (fitted n args) ≡ n
length-fitted n args =
    length-nils (n - length args) (drop_values (length args - n) args)
    ∙ (let h = length-drop_values (length args - n) args in omega arith)

nils-inside :
    (k : ℕ) (xs : List Value)
    → replicate k value_nil ++ (value_nil ∷ xs) ≡ value_nil ∷ (replicate k value_nil ++ xs)
nils-inside zero xs = refl
nils-inside (suc k) xs = ap (λ l. value_nil ∷ l) (nils-inside k xs)

append_assoc : (xs ys zs : List Value) → (xs ++ ys) ++ zs ≡ xs ++ (ys ++ zs)
append_assoc [] ys zs = refl
append_assoc (x ∷ xs) ys zs = ap (λ l. x ∷ l) (append_assoc xs ys zs)

throw_away-Holds :
    {r : Registers} (k : ℕ) (args below : List Value) {s : Stack}
    → k ≤ length args
    → Holds r (args ++ below) s
    → Returns (throw_away k s) (Holds r (drop_values k args ++ below))
unfolding throw_away
throw_away-Holds zero args below le h = (_, refl, h)
throw_away-Holds (suc k) [] below le h = absurd (omega arith)
throw_away-Holds (suc k) (x ∷ args) below le h =
    let (s1, e1, h1) = throwaway_stack-Holds x (args ++ below) h in
    let (s2, e2, h2) = throw_away-Holds k args below (omega arith) h1 in (s2, rw e1 e2, h2)

push_nils-Holds :
    {r : Registers} (k : ℕ) (xs : List Value) {s : Stack}
    → k + length xs ≤ stack_size
    → Holds r xs s
    → Returns (push_nils k s) (Holds r (replicate k value_nil ++ xs))
unfolding push_nils
push_nils-Holds zero xs le h = (_, refl, h)
push_nils-Holds (suc k) xs le h =
    let (s1, e1, h1) = push_stack-Holds xs value_nil h (omega arith) in
    let (s2, e2, h2) = push_nils-Holds k (value_nil ∷ xs) (omega arith) h1 in
    (s2, rw e1 e2, rw (nils-inside k xs) at h2)

-- What an interpreter does where item `i` is `item`, called with as many arguments as it has
-- parameters and with room for `needs` values: it gives what `result` makes of these arguments, the
-- last one first, and leaves its caller's frame on top and the caller's values below its own.
abbrev pub Runs : Interpreter → ℕ → Item → ℕ → ℕ → (List Value → Value) → Type 0
Runs interpret i item params needs result =
    (m : Machine) (depth : ℕ) (r : Registers) (args below : List Value)
    → m.store.items i ≡ some item
    → length args ≡ params
    → params + length below + needs ≤ stack_size
    → IsAt (suc depth) m.vm.callstack
    → r.base ≡ pos (length below)
    → Holds r (args ++ below) m.vm.stack
    → Returns (interpret i m) (λ got.
      (got.0 ≡ result args)
      × IsAt (suc depth) got.1.vm.callstack
      × (got.1.vm.callstack.entry depth ≡ m.vm.callstack.entry depth)
      × ((r' : Registers) × (left : List Value) × Holds r' (left ++ below) got.1.vm.stack))

-- The caller after a call: it goes on at `nextop`, with the result in place of the arguments.
abbrev pub IsBack : ℕ → ℕ → Registers → List Value → ℕ × Machine → Type 0
IsBack nextop depth r xs (next, m) =
    (next ≡ nextop) × IsAt depth m.vm.callstack × Holds r xs m.vm.stack

rebased :
    {r : Registers} (xs : List Value) {s : Stack} (vm : Vm) (b : ℕ)
    → Holds r xs s
    → vm.stack ≡ record s { base = pos b }
    → Holds (record r { base = pos b }) xs vm.stack
rebased {r} xs {s} vm b h e = rw e (record {
  limit = h.limit;
  top = h.top;
  fits = h.fits;
  values = h.values;
  frame = ground (arith, h.frame);
})

call_item-run :
    (interpret : Interpreter) (caller nextop arg_count i params : ℕ) (item : Item)
    (m m1 m3 : Machine) (s1 s2 : Stack) (vm2 vm3 : Vm) (value : Value) (frame : Frame)
    → params_of item ≡ ok params
    → throw_away (arg_count - params) m.vm.stack ≡ ok s1
    → push_nils (params - arg_count) s1 ≡ ok s2
    → push_callstack (record (m.vm) { stack = s2 }) caller nextop params ≡ ok vm2
    → interpret i (record m { vm = vm2 }) ≡ ok (value, m1)
    → pop_callstack m1.vm ≡ ok (frame, vm3)
    → push_value (record m1 { vm = vm3 }) value ≡ ok m3
    → call_item interpret caller nextop arg_count i item m ≡ ok (frame.nextop, m3)
unfolding call_item
call_item-run interpret caller nextop arg_count i params item m m1 m3 s1 s2 vm2 vm3 value frame e0
      e1 e2 e3 e4 e5 e6 =
    rw (e0, e1, e2, e3, e4, e5, e6) refl

op_fetchitem-run :
    (interpret : Interpreter) (code name : Bytes) (caller start n i : ℕ) (item : Item) (m : Machine)
    (s1 : Stack) (out : Outcome (ℕ × Machine))
    → little_endian 2 code start ≡ ok n
    → pop_value m ≡ ok (str_value name, with_stack m s1)
    → find_item m.store m.root name ≡ ok (some i)
    → m.store.items i ≡ some item
    → fetch_by item.type interpret caller (start + 2) n i item (with_stack m s1) ≡ out
    → op_fetchitem interpret code caller start m ≡ out
unfolding op_fetchitem load
op_fetchitem-run interpret code name caller start n i item m s1 out e0 e1 e2 e3 e4 =
    rw (e0, e1, e2, e3) e4

module _ (interpret : Interpreter) (i params caller nextop depth : ℕ) (result : List Value → Value)
    (item : Item) (needs : ℕ) (runs : Runs interpret i item params needs result)
    (takes : params_of item ≡ ok params) (deep : depth < callstack_size) where
  call_item-IsBack :
      {r : Registers} (m : Machine) (args below : List Value)
      → m.store.items i ≡ some item
      → Holds r (args ++ below) m.vm.stack
      → IsAt depth m.vm.callstack
      → params + length below + needs ≤ stack_size
      → length below < stack_size
      → Returns
          (call_item interpret caller nextop (length args) i item m)
          (IsBack nextop depth r (result (fitted params args) ∷ below))
  call_item-IsBack {r} m args below held h at room low =
      let n = length args in
      let value = result (fitted params args) in
      let dropped = drop_values (n - params) args in
      let (s1, e1, h1) = throw_away-Holds (n - params) args below (omega arith) h in
      let len = length-drop_values (n - params) args in
      let len' = length-append dropped below in
      let (s2, e2, h2) = push_nils-Holds (params - n) (dropped ++ below) (omega arith) h1 in
      let h3 : Holds r (fitted params args ++ below) s2 =
        rw (append_assoc (replicate (params - n) value_nil) dropped below) h2 in
      let sized = length-fitted params args in
      let vm1 : Vm = record (m.vm) { stack = s2 } in
      let (vm2, e4, called) =
        push_callstack-Called (fitted params args) below caller nextop depth {vm = vm1} h3 at
          deep in
      let entered : Machine = record m { vm = vm2 } in
      let (got, e5, (v, at', same, (r', left, h5))) =
        runs entered depth (record r { base = pos (length below) }) (fitted params args) below held
          sized room called.deeper refl
          (rebased (fitted params args ++ below) vm2 (length below) h3 called.stack) in
      let (frame, vm3, e6, item_back, next_back, at3, h6) =
        call-return (fitted params args) below left caller nextop depth {vm = vm1} {entered = vm2}
          {returning = got.1.vm} h3 at deep e4 at' same h5 in
      let (s7, e7, h7) =
        push_value-Holds (record (got.1) { vm = vm3 }) value below h6 (omega arith) in
      (
        (frame.nextop, with_stack (record (got.1) { vm = vm3 }) s7),
        call_item-run interpret caller nextop n i params item m got.1
            (with_stack (record (got.1) { vm = vm3 }) s7) s1 s2 vm2 vm3 value frame takes e1 e2
            (rw sized at e4) (e5 ∙ ap (λ w. ok (w, got.1)) v) e6 e7,
        (next_back, at3, h7),
      )

  -- Where the name of a code item stands above the arguments of a call, the interpreter keeps the
  -- contract `Runs` for the item, and there is room on both stacks, `op_fetchitem` goes on behind its
  -- operand, with the result in place of the name and of all the arguments, whatever the code leaves
  -- above the values of its caller. The result is that of the code for as many arguments as it has
  -- parameters: the first ones where there are too many, and all of them and nils behind them where
  -- there are too few.
  pub op_fetchitem-IsBack :
      {r : Registers} (code name : Bytes) (start : ℕ) (m : Machine) (args below : List Value)
      → nextop ≡ start + 2
      → little_endian 2 code start ≡ ok (length args)
      → Holds r (str_value name ∷ (args ++ below)) m.vm.stack
      → IsAt depth m.vm.callstack
      → params + length below + needs ≤ stack_size
      → find_item m.store m.root name ≡ ok (some i)
      → m.store.items i ≡ some item
      → item.type ≡ code_item
      → Returns
          (op_fetchitem interpret code caller start m)
          (IsBack nextop depth r (result (fitted params args) ∷ below))
  op_fetchitem-IsBack {r} code name start m args below next operand h at room found held kind =
      let (s1, e1, h1) = pop_value-Holds m (str_value name) (args ++ below) h in
      let (got, e2, back) =
        call_item-IsBack (with_stack m s1) args below held h1 at room
          (let f = h.fits in let len = length-append args below in omega arith) in
      let called : fetch_by item.type interpret caller (start + 2) (length args) i item
            (with_stack m s1)
          ≡ ok got =
        ap (λ t. fetch_by t interpret caller (start + 2) (length args) i item (with_stack m s1))
          kind
        ∙ ap (λ n. call_item interpret caller n (length args) i item (with_stack m s1)) (sym next)
        ∙ e2 in
      (
        got,
        op_fetchitem-run interpret code name caller start (length args) i item m s1 (ok got) operand
            e1 found held called,
        back,
      )

-- Where the name of a value item stands on top, `op_fetchitem` without arguments puts the value in
-- its place.
pub op_fetchitem-value :
    {r : Registers} (interpret : Interpreter) (code name : Bytes) (caller start i : ℕ) (item : Item)
    (m : Machine) (xs : List Value)
    → little_endian 2 code start ≡ ok 0
    → Holds r (str_value name ∷ xs) m.vm.stack
    → find_item m.store m.root name ≡ ok (some i)
    → m.store.items i ≡ some item
    → item.type ≡ value_item
    → (s : Stack) × (op_fetchitem interpret code caller start m ≡ ok (start + 2, with_stack m s))
      × Holds r (item.value ∷ xs) s
op_fetchitem-value interpret code name caller start i item m xs operand h found held kind =
    let (s1, e1, h1) = pop_value-Holds m (str_value name) xs h in
    let (s2, e2, h2) =
      push_value-Holds (with_stack m s1) item.value xs h1 (let f = h.fits in omega arith) in
    let pushed : fetch_by item.type interpret caller (start + 2) 0 i item (with_stack m s1)
        ≡ ok (start + 2, with_stack m s2) =
      ap (λ t. fetch_by t interpret caller (start + 2) 0 i item (with_stack m s1)) kind
      ∙ rw e2 refl in
    (
      s2,
      op_fetchitem-run interpret code name caller start 0 i item m s1 _ operand e1 found held
          pushed,
      h2,
    )
