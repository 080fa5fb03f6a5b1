-- ===== src/Interpret/Machine/Assemble/Layers.antt =====
-- Names of simple layers through `op_assembleitem` (src/interpret.c).
use sin.Interpret.Code.{byte_at, bytes_at}
use sin.Interpret.Machine.Assemble.{
  NameBuffer, new_buffer, strcat, append_layer, Progress, simple_layer, Helper, one_layer, separate,
  finish, start, assemble, assembleitem_helper, op_assembleitem,
}
use sin.Interpret.Machine.Assign.{push_value-Holds}
use sin.Interpret.Machine.{Machine, with_stack}
use sin.Items.Names.{dot}
use sin.Outcome.{ok, ◌>>=◌, Returns}
use sin.Prelude.{
  c_string, ℕ, zero, suc, ◌+◌, ◌*◌, ◌<◌, ◌≤◌, ◌≡◌, refl, ap, ◌∙◌, false, List, [], ◌∷◌, ◌++◌,
  length, length-append, drop, leb, if◌then◌else◌, Bytes, arith,
}
use sin.Stack.Contents.{Registers, Holds}
use sin.Stack.{Stack, stack_size}
use sin.Value.{Value, str_value}

-- The bytecode of a name of simple layers, and the name.
abbrev pub coded : List Bytes → Bytes
coded [] = 69 ∷ []
coded (l ∷ ls) = 76 ∷ length l ∷ (l ++ coded ls)

abbrev pub joined : Bytes → List Bytes → Bytes
joined t [] = t
joined t (l ∷ []) = t ++ l
joined t (l ∷ l' ∷ ls) = joined ((t ++ l) ++ (dot ∷ [])) (l' ∷ ls)

-- Layers of at most 32 characters without a null.
abbrev pub ArePlain : List Bytes → Type 0
ArePlain [] = Unit {0}
ArePlain (l ∷ ls) = (length l ≤ 32) × (c_string l ≡ l) × ArePlain ls

byte_at-drop : (code : Bytes) (i b : ℕ) (bs : Bytes) → drop i code ≡ b ∷ bs → byte_at code i ≡ ok b
unfolding byte_at
byte_at-drop [] zero b bs e = absurd cc
byte_at-drop [] (suc i) b bs e = absurd cc
byte_at-drop (c ∷ code) zero b bs e = cc
byte_at-drop (c ∷ code) (suc i) b bs e = byte_at-drop code i b bs e

drop-next : (code : Bytes) (i b : ℕ) (bs : Bytes) → drop i code ≡ b ∷ bs → drop (i + 1) code ≡ bs
drop-next [] zero b bs e = absurd cc
drop-next [] (suc i) b bs e = absurd cc
drop-next (c ∷ code) zero b bs e = cc
drop-next (c ∷ code) (suc i) b bs e =
    let z : suc i + 1 ≡ suc (i + 1) = omega arith in rw z (drop-next code i b bs e)

drop-bytes :
    (l : Bytes) (code : Bytes) (i : ℕ) (bs : Bytes)
    → drop i code ≡ l ++ bs
    → (bytes_at (length l) code i ≡ ok l) × (drop (i + length l) code ≡ bs)
unfolding bytes_at
drop-bytes [] code i bs e = (refl, (let z : i + 0 ≡ i = omega arith in rw z e))
drop-bytes (b ∷ l) code i bs e =
    let (e1, e2) = drop-bytes l code (i + 1) bs (drop-next code i b (l ++ bs) e) in
    let z : i + suc (length l) ≡ i + 1 + length l = omega arith in
    (rw (byte_at-drop code i b (l ++ bs) e, e1) refl, rw z e2)

append_assoc : (xs ys zs : Bytes) → (xs ++ ys) ++ zs ≡ xs ++ (ys ++ zs)
append_assoc [] ys zs = refl
append_assoc (x ∷ xs) ys zs = ap (λ l. x ∷ l) (append_assoc xs ys zs)

drop-before : (before rest : Bytes) → drop (length before) (before ++ rest) ≡ rest
drop-before [] rest = refl
drop-before (b ∷ before) rest = drop-before before rest

-- A buffer that has room for one more layer and a dot.
abbrev WellSized : NameBuffer → Type 0
WellSized b = (128 ≤ b.size) × (b.size ≤ b.allocated) × (length b.text ≤ b.size)

append_layer-fits :
    (b : NameBuffer) (l : Bytes)
    → WellSized b
    → length l ≤ 32
    → Returns (append_layer b (length l) l) (λ b'.
      (b'.text ≡ b.text ++ l)
      × (128 ≤ b'.size)
      × (b'.size ≤ b'.allocated)
      × (length b'.text + 1 ≤ b'.size)
      × (length b'.text + 2 ≤ b'.allocated))
unfolding append_layer strcat
append_layer-fits b l (big, alloc, fits) short =
    let len = length-append b.text l in
    let size = if leb b.size (length b.text + length l + 2) then b.size * 2 + 2 else b.size in
    let allocated =
      if leb b.size (length b.text + length l + 2) then b.size * 2 + 2 else b.allocated in
    (
      record { text = b.text ++ l; size = size; allocated = allocated },
      ground arith,
      (refl, ground arith, ground arith, ground arith, ground arith),
    )

strcat-dot :
    (b : NameBuffer)
    → length b.text + 2 ≤ b.allocated
    → strcat b (dot ∷ []) ≡ ok (record b { text = b.text ++ (dot ∷ []) })
unfolding strcat
strcat-dot b h = ground arith

-- One simple layer is read off the code.
simple_layer-reads :
    (helper : Helper) (code l bs : Bytes) (m : Machine) (b : NameBuffer) (i : ℕ)
    → drop i code ≡ 76 ∷ length l ∷ (l ++ bs)
    → WellSized b
    → length l ≤ 32
    → c_string l ≡ l
    → (b' : NameBuffer) × (one_layer helper code i m b
        ≡ ok (record { nextop = i + 2 + length l; machine = m; name = b'; invalid = false }))
      × (drop (i + 2 + length l) code ≡ bs)
      × (b'.text ≡ b.text ++ l)
      × (128 ≤ b'.size)
      × (b'.size ≤ b'.allocated)
      × (length b'.text + 1 ≤ b'.size)
      × (length b'.text + 2 ≤ b'.allocated)
unfolding one_layer simple_layer
simple_layer-reads helper code l bs m b i e sized short plain =
    let e1 = drop-next code i 76 (length l ∷ (l ++ bs)) e in
    let e2 = drop-next code (i + 1) (length l) (l ++ bs) e1 in
    let (read, rest) = drop-bytes l code (i + 1 + 1) bs e2 in
    let (b', run, (t, s1, s2, s3, s4)) = append_layer-fits b l sized short in
    let z : i + 1 + 1 + length l ≡ i + 2 + length l = omega arith in
    (
      b',
      rw
          (
            byte_at-drop code i 76 _ e,
            byte_at-drop code (i + 1) (length l) _ e1,
            read,
            plain,
            run,
            z,
          )
          refl,
      rw z at rest,
      t,
      s1,
      s2,
      s3,
      s4,
    )

abbrev reached : ℕ → Machine → NameBuffer → Progress
reached i m b = record { nextop = i; machine = m; name = b; invalid = false }

abbrev inner : ℕ → Helper
inner fuel code nextop m = assemble fuel code (start nextop m) >>= finish

assemble-stop :
    (fuel : ℕ) (code : Bytes) (p : Progress)
    → byte_at code p.nextop ≡ ok 69
    → assemble (suc fuel) code p ≡ ok p
unfolding assemble
assemble-stop fuel code p e = rw e refl

assemble-step :
    (fuel : ℕ) (code : Bytes) (m : Machine) (b : NameBuffer) (i a : ℕ) (q q' : Progress)
    → byte_at code i ≡ ok 76
    → one_layer (inner fuel) code i m b ≡ ok q
    → byte_at code q.nextop ≡ ok a
    → separate a q ≡ ok q'
    → assemble (suc fuel) code (record { nextop = i; machine = m; name = b; invalid = false })
      ≡ assemble fuel code q'
unfolding assemble
assemble-step fuel code m b i a q q' e0 e1 e2 e3 = rw (e0, e1, e2, e3) refl

-- The loop along the code of layers ends at the byte that ends the name.
assemble-joined :
    (fuel : ℕ) (code post : Bytes) (m : Machine) (ls : List Bytes) (l : Bytes) (b : NameBuffer)
    (i : ℕ)
    → drop i code ≡ coded (l ∷ ls) ++ post
    → ArePlain (l ∷ ls)
    → WellSized b
    → length ls + 2 ≤ fuel
    → (b' : NameBuffer) × (j : ℕ) × (assemble fuel code
          (record { nextop = i; machine = m; name = b; invalid = false })
        ≡ ok (record { nextop = j; machine = m; name = b'; invalid = false }))
      × (j + 1 ≡ i + length (coded (l ∷ ls)))
      × (b'.text ≡ joined b.text (l ∷ ls))
assemble-joined zero code post m ls l b i e plain sized enough = absurd (omega arith)
assemble-joined (suc zero) code post m ls l b i e plain sized enough = absurd (omega arith)
assemble-joined (suc (suc fuel)) code post m [] l b i e (short, text, _) sized enough =
    let e' : drop i code ≡ 76 ∷ length l ∷ (l ++ (69 ∷ post)) =
      e ∙ ap (λ t. 76 ∷ length l ∷ t) (append_assoc l (69 ∷ []) post) in
    let (b', run, rest, t, _, _, _, _) =
      simple_layer-reads (inner (suc fuel)) code l (69 ∷ post) m b i e' sized short text in
    let stop = byte_at-drop code (i + 2 + length l) 69 post rest in
    (
      b',
      i + 2 + length l,
      assemble-step (suc fuel) code m b i 69 (reached (i + 2 + length l) m b')
            (reached (i + 2 + length l) m b') (byte_at-drop code i 76 _ e') run stop refl
          ∙ assemble-stop fuel code (reached (i + 2 + length l) m b') stop,
      (let len = length-append l (69 ∷ []) in omega arith),
      t,
    )
assemble-joined (suc (suc fuel)) code post m (l' ∷ ls) l b i e (short, text, plain) sized enough =
    let e' : drop i code ≡ 76 ∷ length l ∷ (l ++ (coded (l' ∷ ls) ++ post)) =
      e ∙ ap (λ t. 76 ∷ length l ∷ t) (append_assoc l (coded (l' ∷ ls)) post) in
    let (b', run, rest, t, s1, s2, s3, s4) =
      simple_layer-reads (inner (suc fuel)) code l (coded (l' ∷ ls) ++ post) m b i e' sized short
        text in
    let next = byte_at-drop code (i + 2 + length l) 76 _ rest in
    let dotted = strcat-dot b' s4 in
    let (b2, j, run2, len, t2) =
      assemble-joined (suc fuel) code post m ls l' (record b' { text = b'.text ++ (dot ∷ []) })
        (i + 2 + length l) rest plain
        (let len = length-append b'.text (dot ∷ []) in (s1, s2, omega arith)) (omega arith) in
    (
      b2,
      j,
      assemble-step (suc fuel) code m b i 76 (reached (i + 2 + length l) m b')
            (reached (i + 2 + length l) m (record b' { text = b'.text ++ (dot ∷ []) }))
            (byte_at-drop code i 76 _ e') run next (rw dotted refl)
          ∙ run2,
      (let len' = length-append l (coded (l' ∷ ls)) in omega arith),
      t2 ∙ ap (λ t. joined (t ++ (dot ∷ [])) (l' ∷ ls)) t,
    )

coded-long : (ls : List Bytes) → length ls + 1 ≤ length (coded ls)
coded-long [] = omega arith
coded-long (l ∷ ls) = let h = coded-long ls in let e = length-append l (coded ls) in omega arith

enough-fuel :
    (before post : Bytes) (l : Bytes) (ls : List Bytes)
    → length ls + 2 ≤ length (before ++ (coded (l ∷ ls) ++ post)) + 1
enough-fuel before post l ls =
    let h = coded-long (l ∷ ls) in
    let e1 = length-append before (coded (l ∷ ls) ++ post) in
    let e2 = length-append (coded (l ∷ ls)) post in omega arith

-- Over the code of a name of simple layers, of at most 32 characters without a null, the opcode
-- pushes the layers with dots between them and goes on behind the code of the name.
pub op_assembleitem-joined :
    {r : Registers} (before post l : Bytes) (ls : List Bytes) (m : Machine) (xs : List Value)
    → ArePlain (l ∷ ls)
    → Holds r xs m.vm.stack
    → length xs < stack_size
    → (s : Stack) × (op_assembleitem (before ++ (coded (l ∷ ls) ++ post)) (length before) m
        ≡ ok (length before + length (coded (l ∷ ls)), with_stack m s))
      × Holds r (str_value (joined [] (l ∷ ls)) ∷ xs) s
unfolding op_assembleitem assembleitem_helper finish
op_assembleitem-joined before post l ls m xs plain h room =
    let code = before ++ (coded (l ∷ ls) ++ post) in
    let (b', j, run, len, t) =
      assemble-joined (length code + 1) code post m ls l new_buffer (length before)
        (drop-before before (coded (l ∷ ls) ++ post)) plain (omega arith, omega arith, omega arith)
        (enough-fuel before post l ls) in
    let (s, e, h') = push_value-Holds m (str_value b'.text) xs h room in
    (s, rw (run, e, len) refl, rw (← t) h')
