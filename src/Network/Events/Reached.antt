-- ===== src/Network/Events/Reached.antt =====
-- The life of a line (src/network.c, and `lc_net_input` of src/libcall.c) as a step relation.
use sin.Network.Events.{TelnetEvent, telnet_event_handler, ev_data, ev_send, ev_error, ev_other}
use sin.Network.{
  Line, Buffer, empty, connecting, idle, data_ready, disconnecting, append_input, append_output,
  flush_output, get_input, destroy_line, connecting_line, memchr, newline, split_line, take_data,
  strchr, empty_line, append_buffer, is_open, inbuf_length,
}
use sin.Outcome.{ok, Returns-of_bind}
use sin.Prelude.{
  ℕ, ◌≡◌, refl, ap, Bool, true, Option, none, some, [], ◌∷◌, ◌++◌, length, Bytes, ◌||◌, ◌==◌,
  if◌then◌else◌, ltb, sym, ◌∙◌, AreChars, c_string, c_string-chars, Option-cases, Bool-cases, inl,
  inr, arith,
}

-- The bytes that an event brings.
abbrev pub received : TelnetEvent → Bytes
received (ev_data buffer) = buffer
received (ev_send buffer) = []
received ev_error = []
received ev_other = []

-- One event in the life of a line, and the bytes that it brings.
pub data Step (line : Line) : Bytes → Line → Type 0 where
  connects : (handle : ℕ) → line.status ≡ empty → Step line [] (connecting_line line handle)
  hears :
      (ev : TelnetEvent) (line' : Line) (closes : Bool)
      → telnet_event_handler line ev ≡ ok (line', closes)
      → Step line (received ev) line'
  closes : Step line [] (record line { status = disconnecting })
  flushes : Step line [] (flush_output line).1
  welcomed : line.status ≡ connecting → Step line [] (record line { status = idle })
  freed : line.status ≡ disconnecting → Step line [] (destroy_line line)
  read :
      (text : Bytes) (line' : Line)
      → line.status ≡ data_ready
      → get_input line ≡ ok (text, line')
      → Step line [] line'

-- What line `l` may come to from the start, and all that it has received.
pub data Reached (l : ℕ) : Bytes → Line → Type 0 where
  started : Reached l [] (empty_line l)
  stepped :
      {got more : Bytes} {line line' : Line}
      → Reached l got line
      → Step line more line'
      → Reached l (got ++ more) line'

-- No null in the buffer, and a line that is said to have data has a whole line of text.
pub record HasText (line : Line) : Type 0 where
  pub chars : AreChars line.inbuf.bytes
  pub ready : line.status ≡ data_ready → memchr newline line.inbuf.bytes ≡ true

AreChars-append : (a b : Bytes) → AreChars a → AreChars b → AreChars (a ++ b)
AreChars-append [] b h k = k
AreChars-append (x ∷ a) b (ne, h) k = (ne, AreChars-append a b h k)

AreChars-split : (a b : Bytes) → AreChars (a ++ b) → AreChars a × AreChars b
AreChars-split [] b h = (tt, h)
AreChars-split (x ∷ a) b (ne, h) = let (l, r) = AreChars-split a b h in ((ne, l), r)

memchr-append : (c : ℕ) (a b : Bytes) → memchr c (a ++ b) ≡ (memchr c a || memchr c b)
unfolding memchr
memchr-append c [] b = refl
memchr-append c (x ∷ a) b = ground (arith, memchr-append c a b)

append_buffer-bytes :
    (b : Buffer) (msg : Bytes) (b' : Buffer)
    → append_buffer b msg ≡ ok b'
    → b'.bytes ≡ b.bytes ++ msg
unfolding append_buffer
append_buffer-bytes b msg b' e = ground arith

-- What is left of a line that has taken in a message.
heard : Line → Bytes → Buffer → Line
heard line msg inbuf = record line {
  status = if memchr newline msg then data_ready else line.status;
  inbuf = inbuf;
}

heard-HasText :
    (line : Line) (msg : Bytes) (b : Buffer)
    → b.bytes ≡ line.inbuf.bytes ++ msg
    → AreChars msg
    → HasText line
    → HasText (heard line msg b)
unfolding heard
heard-HasText line msg b e chars h = record {
  chars = rw e (AreChars-append line.inbuf.bytes msg h.chars chars);
  ready = λ ready.
      rw (e, memchr-append newline line.inbuf.bytes msg)
        (elim (Bool-cases (memchr newline msg)) [
          | inl new ↦ ground arith
          | inr old ↦
              (let r : line.status ≡ data_ready = rw old at ready in
                let q = h.ready r in ground arith)
        ]);
}

ok_inj : {a b : Line} → ok a ≡ ok b → a ≡ b
ok_inj e = cc

append_input-HasText :
    (line line' : Line) (msg : Bytes)
    → append_input line msg ≡ ok line'
    → AreChars msg
    → HasText line
    → HasText line'
unfolding append_input heard
append_input-HasText line line' msg e chars h = elim (Bool-cases (is_open line.status)) [
  | inl opened ↦
      (let (b, e1, e2) = Returns-of_bind (append_buffer line.inbuf msg) _ (rw opened at e) in
        let same : heard line msg b ≡ line' = cc in
        rw (← same) (heard-HasText line msg b (append_buffer-bytes line.inbuf msg b e1) chars h))
  | inr closed ↦ (let same : ok line ≡ ok line' = rw closed at e in rw (← ok_inj same) h)
]

append_output-HasText :
    (line line' : Line) (msg : Bytes)
    → append_output line msg ≡ ok line'
    → HasText line
    → HasText line'
unfolding append_output
append_output-HasText line line' msg e h = elim (Bool-cases (is_open line.status)) [
  | inl opened ↦
      (let (b, e1, e2) = Returns-of_bind (append_buffer line.outbuf msg) _ (rw opened at e) in
        let same : record line { outbuf = b } ≡ line' = cc in
        rw (← same) (record { chars = h.chars; ready = h.ready }))
  | inr closed ↦ (let same : ok line ≡ ok line' = rw closed at e in rw (← ok_inj same) h)
]

flush_output-HasText : (line : Line) → HasText line → HasText (flush_output line).1
unfolding flush_output
flush_output-HasText line h = elim (Bool-cases (ltb 0 (length line.outbuf.bytes))) [
  | inl some_out ↦ rw some_out (record { chars = h.chars; ready = h.ready })
  | inr nothing ↦ rw nothing (record { chars = h.chars; ready = h.ready })
]

split_line-AreChars :
    (bs text after : Bytes) → split_line bs ≡ some (text, after) → AreChars bs → AreChars after
unfolding split_line
split_line-AreChars [] text after e h = absurd cc
split_line-AreChars (b ∷ bs) text after e (ne, h) = elim (Bool-cases (b == newline)) [
  | inl here ↦ (let e' = rw here at e in let same : bs ≡ after = cc in rw (← same) h)
  | inr later ↦ elim (Option-cases (split_line bs)) [
    | inl nothing ↦ absurd (let e' = rw (later, nothing) at e in cc)
    | inr ((t, a), found) ↦
        (let e' = rw (later, found) at e in
          let same : a ≡ after = cc in
          split_line-AreChars bs t after (found ∙ ap (λ (x : Bytes). some (t, x)) same) h)
  ]
]

take_data-HasText :
    (line line' : Line) (text : Bytes) (o : Option (Bytes × Bytes))
    → take_data line o ≡ ok (text, line')
    → ((t after : Bytes) → o ≡ some (t, after) → AreChars after)
    → HasText line'
unfolding strchr
take_data-HasText line line' text none e chars = absurd cc
take_data-HasText line line' text (some (t, after)) e chars =
    elim (Bool-cases (ltb (length after) inbuf_length)) [
      | inl fits ↦
          (let b : line'.inbuf.bytes ≡ after = ground arith in
            let plain = chars t after refl in
            let whole = c_string-chars after plain in
            record {
              chars = rw b plain;
              ready = elim (Bool-cases (memchr newline (c_string after))) [
                | inl more ↦ (λ ready. rw b (sym (ap (memchr newline) whole) ∙ more))
                | inr last ↦ (λ ready. absurd (let s : line'.status ≡ idle = ground arith in cc))
              ];
            })
      | inr over ↦ absurd (ground arith)
    ]

Step-HasText :
    {line line' : Line} {more : Bytes}
    → Step line more line'
    → AreChars more
    → HasText line
    → HasText line'
unfolding telnet_event_handler get_input destroy_line
Step-HasText {line} (connects handle at) chars h = record { chars = tt; ready = λ ready. absurd cc }
Step-HasText {line} (hears (ev_data buffer) line' c e) chars h =
    let (x, e1, e2) = Returns-of_bind (append_input line buffer) _ e in
    let same : x ≡ line' = cc in rw (← same) (append_input-HasText line x buffer e1 chars h)
Step-HasText {line} (hears (ev_send buffer) line' c e) chars h =
    let (x, e1, e2) = Returns-of_bind (append_output line buffer) _ e in
    let same : x ≡ line' = cc in rw (← same) (append_output-HasText line x buffer e1 h)
Step-HasText {line} (hears ev_error line' c e) chars h =
    let same : line ≡ line' = cc in rw (← same) h
Step-HasText {line} (hears ev_other line' c e) chars h =
    let same : line ≡ line' = cc in rw (← same) h
Step-HasText closes chars h = record { chars = h.chars; ready = λ ready. absurd cc }
Step-HasText {line} flushes chars h = flush_output-HasText line h
Step-HasText (welcomed at) chars h = record { chars = h.chars; ready = λ ready. absurd cc }
Step-HasText (freed at) chars h = record { chars = h.chars; ready = λ ready. absurd cc }
Step-HasText {line} (read text line' at e) chars h =
    let whole = c_string-chars line.inbuf.bytes h.chars in
    take_data-HasText line line' text (split_line (c_string line.inbuf.bytes)) e (λ t after q.
      split_line-AreChars line.inbuf.bytes t after (sym (ap split_line whole) ∙ q) h.chars)

reached-HasText :
    {l : ℕ} {got : Bytes} {line : Line} → Reached l got line → AreChars got → HasText line
reached-HasText started chars = record { chars = tt; ready = λ ready. absurd cc }
reached-HasText (stepped {got} {more} r s) chars =
    let (before, new) = AreChars-split got more chars in
    Step-HasText s new (reached-HasText r before)

memchr-split :
    (bs : Bytes)
    → memchr newline bs ≡ true
    → (text : Bytes) × (after : Bytes) × (split_line bs ≡ some (text, after))
      × (bs ≡ text ++ (newline ∷ after))
unfolding memchr split_line
memchr-split [] h = absurd cc
memchr-split (b ∷ bs) h = elim (Bool-cases (b == newline)) [
  | inl here ↦ ([], bs, rw here refl, let e : b ≡ newline = ground arith in rw e refl)
  | inr later ↦
      (let (text, after, e, q) = memchr-split bs (ground arith) in
        (b ∷ text, after, rw (later, e) refl, ap (λ (t : Bytes). b ∷ t) q))
]

-- Where a line has received no null since the start, whatever else has happened to it, and its status
-- says that it has data, its buffer holds a newline, so that `get_input` finds its text.
pub reached-split_line :
    {l : ℕ} {got : Bytes} {line : Line}
    → Reached l got line
    → AreChars got
    → line.status ≡ data_ready
    → (text : Bytes) × (after : Bytes) × (split_line (c_string line.inbuf.bytes)
        ≡ some (text, after))
      × (line.inbuf.bytes ≡ text ++ (newline ∷ after))
reached-split_line {line = line} r chars ready =
    let h = reached-HasText r chars in
    let whole = c_string-chars line.inbuf.bytes h.chars in
    let (text, after, e, q) = memchr-split line.inbuf.bytes (h.ready ready) in
    (text, after, ap split_line whole ∙ e, q)
