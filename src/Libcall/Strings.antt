-- ===== src/Libcall/Strings.antt =====
-- `lc_str_capitalise`, `lc_str_upper` and `lc_str_lower` of src/libcall.c. Letters are those of ASCII,
-- as in the locale that a program starts in.
use sin.Interpret.Machine.{Machine, with_stack, pop_value, push_value}
use sin.Outcome.{Outcome, ok, ◌>>=◌}
use sin.Prelude.{ℕ, ◌+◌, ◌-◌, [], ◌∷◌, leb, ◌&&◌, if◌then◌else◌, Bytes}
use sin.Stack.{read_cell, write_cell}
use sin.Value.{text, payload_s, is_str, value_nil}

unfoldable pub toupper : ℕ → ℕ
toupper c = if leb 97 c && leb c 122 then c - 32 else c

unfoldable pub tolower : ℕ → ℕ
tolower c = if leb 65 c && leb c 90 then c + 32 else c

-- The first character; the null of an empty string stays one.
unfoldable pub capitalise : Bytes → Bytes
capitalise [] = []
capitalise (c ∷ cs) = toupper c ∷ cs

unfoldable pub upper : Bytes → Bytes
upper [] = []
upper (c ∷ cs) = toupper c ∷ upper cs

unfoldable pub lower : Bytes → Bytes
lower [] = []
lower (c ∷ cs) = tolower c ∷ lower cs

-- A string on the top is changed where it stands.
unfoldable pub change_top : (Bytes → Bytes) → ℕ → Machine → Outcome (ℕ × Machine)
change_top f nextop m = do
  top ← read_cell m.vm.stack m.vm.stack.current
  if is_str top.type
      then (do
        s ← payload_s top.payload
        stack ← write_cell m.vm.stack m.vm.stack.current (record top { payload = text (f s) })
        ok (nextop, with_stack m stack))
      else (do (val, m1) ← pop_value m; m2 ← push_value m1 value_nil; ok (nextop, m2))

unfoldable pub lc_str_capitalise : ℕ → Machine → Outcome (ℕ × Machine)
unfolding change_top
lc_str_capitalise nextop m = change_top capitalise nextop m

unfoldable pub lc_str_upper : ℕ → Machine → Outcome (ℕ × Machine)
unfolding change_top
lc_str_upper nextop m = change_top upper nextop m

unfoldable pub lc_str_lower : ℕ → Machine → Outcome (ℕ × Machine)
unfolding change_top
lc_str_lower nextop m = change_top lower nextop m
