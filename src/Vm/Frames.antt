-- ===== src/Vm/Frames.antt =====
-- A call and its return, in src/vm.c.
use sin.Outcome.{ok, raised, Returns}
use sin.Prelude.{
  ℕ, suc, ◌-◌, ◌≡◌, refl, ◌<◌, ◌≤◌, ◌∙◌, ap, List, ◌++◌, arith, length, length-append,
}
use sin.Prelude.Int.{pos, sub_ℕ, ◌+ℤ◌, ◌-ℤ◌}
use sin.Stack.Contents.{Registers, Holds}
use sin.Stack.Reset.{reset_stack_to-Holds}
use sin.Stack.{reset_stack_to}
use sin.Value.{Value}
use sin.Vm.{
  Frame, CallStack, Vm, callstack_size, push_callstack, pop_callstack, set_entry, in_entries,
}

-- `depth` frames are on the call stack.
pub record IsAt (depth : ℕ) (c : CallStack) : Type 0 where
  pub limit : c.max ≡ pos (callstack_size - 1)
  pub top : c.current ≡ sub_ℕ depth 1

abbrev saved_frame : Vm → ℕ → ℕ → ℕ → Frame
saved_frame vm item nextop below = record {
  item = item;
  nextop = nextop;
  current_stack = sub_ℕ below 1;
  current_base = vm.stack.base;
  current_locals = vm.stack.locals;
  current_params = vm.stack.params;
}

-- What a call leaves: one more frame, which keeps the caller's place and registers, and a base at
-- the first of the arguments.
pub record Called (vm : Vm) (item nextop depth below : ℕ) (vm' : Vm) : Type 0 where
  pub deeper : IsAt (suc depth) vm'.callstack
  pub saved : vm'.callstack.entry depth ≡ saved_frame vm item nextop below
  pub older : (i : ℕ) → i < depth → vm'.callstack.entry i ≡ vm.callstack.entry i
  pub stack : vm'.stack ≡ record (vm.stack) { base = pos below }

abbrev called_vm : Vm → ℕ → ℕ → ℕ → ℕ → Vm
called_vm vm item nextop depth below = record {
  stack = record (vm.stack) { base = pos below };
  callstack = record (vm.callstack) {
    current = pos depth;
    entry = set_entry vm.callstack.entry depth (saved_frame vm item nextop below);
  };
}

module _ {r : Registers} (args below : List Value) (item nextop depth : ℕ) {vm : Vm}
    (h : Holds r (args ++ below) vm.stack) (at : IsAt depth vm.callstack) where
  top_after : depth < callstack_size → in_entries (vm.callstack.current +ℤ pos 1) ≡ ok depth
  unfolding ◌+ℤ◌
  top_after room = ground arith

  base_after : vm.stack.current +ℤ pos 1 -ℤ pos (length args) ≡ pos (length below)
  unfolding ◌+ℤ◌ ◌-ℤ◌
  base_after = ground (arith, length-append args below)

  kept_after : vm.stack.current -ℤ pos (length args) ≡ sub_ℕ (length below) 1
  unfolding ◌+ℤ◌ ◌-ℤ◌
  kept_after = ground (arith, length-append args below)

  next_entry : vm.callstack.current +ℤ pos 1 ≡ pos depth
  unfolding ◌+ℤ◌
  next_entry = ground arith

  push_callstack-eq :
      depth < callstack_size
      → push_callstack vm item nextop (length args)
        ≡ ok (called_vm vm item nextop depth (length below))
  unfolding push_callstack
  push_callstack-eq room = rw (base_after, kept_after, next_entry) (ground arith)

  -- A call below the greatest depth returns and saves the caller's frame.
  pub push_callstack-Called :
      depth < callstack_size
      → Returns
          (push_callstack vm item nextop (length args))
          (Called vm item nextop depth (length below))
  push_callstack-Called room = (
    _,
    push_callstack-eq room,
    record {
      deeper = record { limit = at.limit; top = ground arith };
      saved = ground arith;
      older = λ i lt. ground arith;
      stack = refl;
    },
  )

  -- A call at the greatest depth raises.
  pub push_callstack-full :
      callstack_size ≤ depth → push_callstack vm item nextop (length args) ≡ raised
  unfolding push_callstack
  push_callstack-full full = ground arith

-- What a return does to the machine: the top frame is gone.
pub record Returned (frame : Frame) (depth : ℕ) (below : List Value) (vm : Vm) : Type 0 where
  pub shallower : IsAt depth vm.callstack
  pub stack :
      Holds
        (record {
          base = frame.current_base;
          locals = frame.current_locals;
          params = frame.current_params;
        })
        below
        vm.stack

pub pop_callstack-Returned :
    {r : Registers} (left below : List Value) (depth : ℕ) {vm : Vm}
    → Holds r (left ++ below) vm.stack
    → IsAt (suc depth) vm.callstack
    → depth < callstack_size
    → (vm.callstack.entry depth).current_stack ≡ sub_ℕ (length below) 1
    → (vm' : Vm) × (pop_callstack vm ≡ ok (vm.callstack.entry depth, vm'))
      × Returned (vm.callstack.entry depth) depth below vm'
      × (vm'.callstack.entry ≡ vm.callstack.entry)
unfolding pop_callstack ◌-ℤ◌
pop_callstack-Returned {r} left below depth {vm} h at room kept =
    let frame = vm.callstack.entry depth in
    let s = reset_stack_to vm.stack frame.current_stack in
    let low : Holds r below s = rw kept (reset_stack_to-Holds left below h) in
    (
      record {
        stack = record s {
          locals = frame.current_locals;
          params = frame.current_params;
          base = frame.current_base;
        };
        callstack = record (vm.callstack) { current = sub_ℕ depth 1 };
      },
      ground arith,
      record {
        shallower = record { limit = at.limit; top = refl };
        stack = record {
          limit = low.limit;
          top = low.top;
          fits = low.fits;
          values = low.values;
          frame = refl;
        };
      },
      refl,
    )

-- A callee that leaves its frame on top and the caller's values below its own returns to the
-- caller's place, values and registers, whatever it left above and in its registers.
pub call-return :
    {r r' : Registers} (args below left : List Value) (item nextop depth : ℕ)
    {vm entered returning : Vm}
    → Holds r (args ++ below) vm.stack
    → IsAt depth vm.callstack
    → depth < callstack_size
    → push_callstack vm item nextop (length args) ≡ ok entered
    → IsAt (suc depth) returning.callstack
    → returning.callstack.entry depth ≡ entered.callstack.entry depth
    → Holds r' (left ++ below) returning.stack
    → (frame : Frame) × (vm' : Vm) × (pop_callstack returning ≡ ok (frame, vm'))
      × (frame.item ≡ item)
      × (frame.nextop ≡ nextop)
      × IsAt depth vm'.callstack
      × Holds r below vm'.stack
call-return args below left item nextop depth {vm} {entered} {returning} h at room call on_top same
      kept =
    let saved : entered.callstack.entry depth ≡ saved_frame vm item nextop (length below) =
      ground (arith, push_callstack-eq args below item nextop depth h at room) in
    let e : returning.callstack.entry depth ≡ saved_frame vm item nextop (length below) =
      same ∙ saved in
    let (vm', run, back, _) =
      pop_callstack-Returned left below depth kept on_top room (ap (λ f. f.current_stack) e) in
    (
      _,
      vm',
      run,
      ap (λ f. f.item) e,
      ap (λ f. f.nextop) e,
      back.shallower,
      record {
        limit = back.stack.limit;
        top = back.stack.top;
        fits = back.stack.fits;
        values = back.stack.values;
        frame = ground (arith, h.frame, back.stack.frame, e);
      },
    )
