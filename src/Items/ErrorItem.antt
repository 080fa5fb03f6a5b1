-- ===== src/Items/ErrorItem.antt =====
-- `set_error_item` of src/item.c.
use sin.Error.{errmsg}
use sin.Items.Walk.{set_item}
use sin.Items.{Store}
use sin.Outcome.{Outcome, ◌>>=◌, from_option}
use sin.Prelude.{ℕ, codes}
use sin.Value.{int_value, str_value}

-- `strdup` of a message that was not set is undefined.
unfoldable pub set_error_item : Store → ℕ → ℕ → Outcome Store
set_error_item st root errnum = do
  st1 ← set_item st root (codes "error") (int_value errnum)
  msg ← from_option (errmsg errnum)
  set_item st1 root (codes "error.msg") (str_value msg)
