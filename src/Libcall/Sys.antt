-- ===== src/Libcall/Sys.antt =====
-- The calls of the library `sys` in src/libcall.c. What they log is output, and not modelled.
use sin.Interpret.Host.{Host, called, uv_stop, saved_itemstore}
use sin.Interpret.Machine.{Machine, pop_value, push_value}
use sin.Items.File.{save_itemstore}
use sin.Outcome.{Outcome, ok, ◌>>=◌}
use sin.Prelude.{ℕ, Bool, true, false}
use sin.Value.{ValueType, int, str, nil, bool, Value, payload_i, payload_s, value_nil}

-- The name of the file is made of the time. No tree is deeper than the number of items.
unfoldable pub lc_sys_backup : ℕ → Machine → Outcome (ℕ × Machine)
lc_sys_backup nextop m = do
  file ← save_itemstore m.store.next m.store m.root
  m1 ← push_value (record m { host = called m.host (saved_itemstore file) }) value_nil
  ok (nextop, m1)

-- What is logged of a value has to be there.
abbrev pub log_by : ValueType → Value → Outcome (Unit {0})
log_by str v = do s ← payload_s v.payload; ok tt
log_by int v = do i ← payload_i v.payload; ok tt
log_by nil v = ok tt
log_by bool v = do i ← payload_i v.payload; ok tt

unfoldable pub lc_sys_log : ℕ → Machine → Outcome (ℕ × Machine)
lc_sys_log nextop m = do
  (val, m1) ← pop_value m
  logged ← log_by val.type val
  m2 ← push_value m1 value_nil
  ok (nextop, m2)

abbrev pub stopped : Host → Bool → Host
stopped h safe = called (record h { safe_shutdown = safe }) uv_stop

unfoldable pub lc_sys_shutdown : ℕ → Machine → Outcome (ℕ × Machine)
lc_sys_shutdown nextop m = do
  m1 ← push_value (record m { host = stopped m.host true }) value_nil
  ok (nextop, m1)

unfoldable pub lc_sys_abort : ℕ → Machine → Outcome (ℕ × Machine)
lc_sys_abort nextop m = do
  m1 ← push_value (record m { host = stopped m.host false }) value_nil
  ok (nextop, m1)
