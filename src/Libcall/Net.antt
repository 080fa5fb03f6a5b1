-- ===== src/Libcall/Net.antt =====
-- The calls of the library `net` in src/libcall.c.
pub mod Turns
pub mod Input
use sin.Interpret.Host.{Host, called, telnet_send_text, telnet_free}
use sin.Interpret.Machine.{Machine, pop_value, push_value}
use sin.Items.Walk.{set_item}
use sin.Itoa.{itoa}
use sin.Libcall.Tasks.{invalid_args}
use sin.Network.{
  Line, LineStatus, empty, connecting, idle, data_ready, disconnecting, destroy_line, get_input,
}
use sin.Outcome.{Outcome, ok, undefined, ◌>>=◌, from_option}
use sin.Prelude.{
  ℕ, zero, suc, ◌+◌, ◌-◌, ◌%◌, ◌^◌, Bool, true, false, not, Option, none, some, List, [], ◌∷◌,
  length, get_elem?, set, ltb, leb, ◌==◌, ◌&&◌, if◌then◌else◌, Bytes, codes,
}
use sin.Value.{
  ValueType, int, str, nil, bool, Value, int_value, str_value, value_nil, value_zero, payload_i,
  payload_s, is_int,
}

-- A line whose status is one of the three that `lc_net_input` answers.
abbrev pub is_active : LineStatus → Bool
is_active connecting = true
is_active disconnecting = true
is_active data_ready = true
is_active _ = false

abbrev pub is_active_at : List Line → ℕ → Bool
is_active_at lines l = elim (get_elem? lines l) [ none ↦ false | some line ↦ is_active line.status ]

-- `config.lastconn++`, of a `uint8_t`, and back to 0 at the end of the table.
unfoldable pub next_conn : ℕ → ℕ → ℕ
next_conn maxconns lastconn = let l = (lastconn + 1) % 256 in if leb maxconns l then 0 else l

-- The loop up to a line with activity, or to the end. The first argument is the number of rounds
-- that may be left; below 256 lines the counter does not wrap.
unfoldable pub find_activity : ℕ → List Line → ℕ → ℕ
find_activity zero lines l = l
find_activity (suc fuel) lines l =
    let later = find_activity fuel lines (l + 1) in
    if ltb l (length lines) && not (is_active_at lines l) then later else l

-- Where `config.lastconn` stands when the loop is left.
unfoldable pub turn : List Line → ℕ → ℕ
turn lines lastconn = find_activity (length lines) lines (next_conn (length lines) lastconn)

abbrev pub set_int : Machine → Bytes → ℕ → Outcome Machine
set_int m name i = do
  store ← set_item m.store m.root name (int_value i)
  ok (record m { store = store })

abbrev pub answer : ℕ → Machine → ℕ → Outcome (ℕ × Machine)
answer nextop m i = do m1 ← push_value m (int_value i); ok (nextop, m1)

abbrev pub with_line : Machine → ℕ → Line → Machine
with_line m l line = record m { host = record (m.host) { lines = set m.host.lines l line } }

-- The cases of the `switch`; the loop does not stop at an idle or empty line.
abbrev pub serve_by : LineStatus → ℕ → Machine → ℕ → Line → Outcome (ℕ × Machine)
serve_by connecting nextop m l line = do
  m1 ← set_int (with_line m l (record line { status = idle })) m.host.inputline l
  answer nextop m1 1
serve_by disconnecting nextop m l line = do
  let m0 = with_line m l (record (destroy_line line) { status = empty })
  m1 ← set_int (record m0 { host = called m0.host (telnet_free l) }) m.host.inputline l
  answer nextop m1 2
serve_by data_ready nextop m l line = do
  m1 ← set_int m m.host.inputline l
  (text, line') ← get_input line
  store ← set_item m1.store m1.root m.host.inputtext (str_value text)
  answer nextop (with_line (record m1 { store = store }) l line') 3
serve_by idle nextop m l line = answer nextop m 0
serve_by empty nextop m l line = answer nextop m 0

abbrev pub serve : ℕ → Machine → ℕ → Option Line → Outcome (ℕ × Machine)
serve nextop m l none = answer nextop m 0
serve nextop m l (some line) = serve_by line.status nextop m l line

unfoldable pub lc_net_input : ℕ → Machine → Outcome (ℕ × Machine)
unfolding turn
lc_net_input nextop m =
    let l = turn m.host.lines m.host.lastconn in
    serve nextop (record m { host = record (m.host) { lastconn = l } }) l (get_elem? m.host.lines l)

-- The texts that are sent; nil sends none.
abbrev pub sent_text : ValueType → Value → Outcome (Option Bytes)
sent_text str v = do s ← payload_s v.payload; ok (some s)
sent_text int v = do i ← payload_i v.payload; s ← itoa (i % 2 ^ 32); ok (some s)
sent_text nil v = ok none
sent_text bool v = do
  i ← payload_i v.payload
  ok (some (if i == 0 then codes "false" else codes "true"))

-- `line[l].telnet` of a line without a connection was never set, or is freed. The telnet library hands
-- what it is to send to `telnet_event_handler`, which is an event of its own (Network/Events).
abbrev pub send_by : LineStatus → Host → ℕ → Bytes → Outcome Host
send_by empty h l s = undefined
send_by _ h l s = ok (called h (telnet_send_text l s))

abbrev pub send : Host → ℕ → Option Bytes → Outcome Host
send h l none = ok h
send h l (some s) = do line ← from_option (get_elem? h.lines l); send_by line.status h l s

-- A line number that is negative has its top bit set.
abbrev pub is_line : Machine → Value → Outcome Bool
is_line m v =
    if is_int v.type
    then (do i ← payload_i v.payload; ok (ltb i (2 ^ 63) && ltb i (length m.host.lines)))
    else ok false

unfoldable pub lc_net_write : ℕ → Machine → Outcome (ℕ × Machine)
unfolding invalid_args
lc_net_write nextop m = do
  (out, m1) ← pop_value m
  (linenum, m2) ← pop_value m1
  valid ← is_line m2 linenum
  if valid
      then (do
        l ← payload_i linenum.payload
        s ← sent_text out.type out
        host ← send m2.host l s
        m3 ← push_value (record m2 { host = host }) value_nil
        ok (nextop, m3))
      else invalid_args nextop m2
