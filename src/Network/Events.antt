-- ===== src/Network/Events.antt =====
-- The callbacks of src/network.c: what libuv and the telnet library tell a line.
pub mod Reached
pub mod Full
use sin.Network.{
  Line, LineStatus, empty, connecting, idle, data_ready, disconnecting, append_input, append_output,
  add_line, find_line, flush_output, get_input, destroy_line, connecting_line,
}
use sin.Outcome.{Outcome, ok, undefined, ◌>>=◌, from_option}
use sin.Prelude.{
  ℕ, Bool, true, false, Option, none, some, List, [], ◌∷◌, get_elem?, set, Bytes, codes,
}

-- `telnet_event_t`: text that was received or is to be sent, an error, or what is passed over.
pub data TelnetEvent : Type 0 where
  ev_data : Bytes → TelnetEvent
  ev_send : Bytes → TelnetEvent
  ev_error : TelnetEvent
  ev_other : TelnetEvent

-- The line, and whether its handle is to be closed.
unfoldable pub telnet_event_handler : Line → TelnetEvent → Outcome (Line × Bool)
telnet_event_handler line (ev_data buffer) = do line' ← append_input line buffer; ok (line', false)
telnet_event_handler line (ev_send buffer) = do line' ← append_output line buffer; ok (line', false)
telnet_event_handler line ev_error = ok (line, true)
telnet_event_handler line ev_other = ok (line, false)

-- The events of one `telnet_recv`, in order.
unfoldable pub handle_events : Line → List TelnetEvent → Bool → Outcome (Line × Bool)
unfolding telnet_event_handler
handle_events line [] closes = ok (line, closes)
handle_events line (ev ∷ evs) closes = do
  (line', error) ← telnet_event_handler line ev
  handle_events line' evs (elim error [ true ↦ true | false ↦ closes ])

-- The handle was closed. Of a handle without a line `find_line` gives NULL.
unfoldable pub client_on_close : List Line → ℕ → Outcome (List Line)
client_on_close lines handle = do
  l ← from_option (find_line lines handle)
  line ← from_option (get_elem? lines l)
  ok (set lines l (record line { status = disconnecting }))

-- The result of a read: bytes, nothing, or an error or the end, upon which the handle is closed.
pub data Read : Type 0 where
  bytes_read : Bytes → Read
  nothing_read : Read
  read_error : Read

-- What `telnet_recv` makes of the bytes is the library's affair.
module _ (telnet_recv : Bytes → List TelnetEvent) where
  abbrev read_for : List Line → Bytes → Option ℕ → Outcome (List Line × Bool)
  read_for lines bytes none = ok (lines, false)
  read_for lines bytes (some l) = do
    line ← from_option (get_elem? lines l)
    (line', closes) ← handle_events line (telnet_recv bytes) false
    ok (set lines l line', closes)

  -- The lines, and whether the handle is to be closed.
  unfoldable pub client_read : List Line → ℕ → Read → Outcome (List Line × Bool)
  unfolding handle_events
  client_read lines client (bytes_read bytes) = read_for lines bytes (find_line lines client)
  client_read lines client nothing_read = ok (lines, false)
  client_read lines client read_error = ok (lines, true)

-- The greeting, as the telnet library hands it on to be sent.
module _ (telnet_printf : Bytes → Bytes) where
  -- Without a line `newline` is NULL, and the code goes on with it all the same.
  abbrev greet : Option (ℕ × List Line) → Outcome (List Line × Bytes)
  greet none = undefined
  greet (some (l, lines)) = do
    line ← from_option (get_elem? lines l)
    line1 ← append_output line (telnet_printf (codes "Connected.\n"))
    let (sent, line2) = flush_output line1
    ok (set lines l line2, sent)

  -- A connection that libuv accepts: the lines, and what was sent.
  unfoldable pub on_new_connection : List Line → ℕ → Outcome (List Line × Bytes)
  on_new_connection lines client = greet (add_line lines client)
