-- ===== src/Interpret/Host.antt =====
-- What the interpreter shares with the event loop: the tasks, the lines and fields of
-- `CONFIG_t` (src/config.h), and the calls of libraries and of the file system that were made.
use sin.Network.{Line}
use sin.Prelude.{ℕ, Bool, List, ◌∷◌, Bytes}
use sin.Task.{Tasks}

-- A call of libuv or of the telnet library, or a file that was written. A timer belongs to the task
-- of that id, a line is known by its number.
pub data HostCall : Type 0 where
  uv_stop : HostCall
  uv_timer_start : ℕ → ℕ → ℕ → HostCall
  uv_close_timer : ℕ → HostCall
  telnet_send_text : ℕ → Bytes → HostCall
  telnet_free : ℕ → HostCall
  saved_itemstore : Bytes → HostCall
  saved_itemsource : Bytes → Bytes → HostCall

-- `config.maxconns` is the length of the table of lines. The last call is the head of the list.
pub record Host : Type 0 where
  pub tasks : Tasks
  pub lines : List Line
  pub lastconn : ℕ
  pub srcroot : Bytes
  pub inputline : Bytes
  pub inputtext : Bytes
  pub safe_shutdown : Bool
  pub calls : List HostCall

abbrev pub called : Host → HostCall → Host
called h call = record h { calls = call ∷ h.calls }
