-- ===== src/Network/Events/Full.antt =====
-- A connection when every line of src/network.c is taken.
use sin.Network.Events.{on_new_connection}
use sin.Network.{Line, add_line, is_empty}
use sin.Outcome.{undefined}
use sin.Prelude.{ℕ, ◌≡◌, refl, false, none, List, [], ◌∷◌, Bytes}

-- No line is empty.
abbrev pub AreTaken : List Line → Type 0
AreTaken [] = Unit {0}
AreTaken (line ∷ lines) = (is_empty line.status ≡ false) × AreTaken lines

add_line-full : (lines : List Line) (handle : ℕ) → AreTaken lines → add_line lines handle ≡ none
unfolding add_line
add_line-full [] handle taken = refl
add_line-full (line ∷ lines) handle (first, rest) = rw (add_line-full lines handle rest, first) refl

-- Where no line is empty, the code of a new connection goes on with the NULL that it was given for a
-- line.
pub on_new_connection-full :
    (telnet_printf : Bytes → Bytes) (lines : List Line) (client : ℕ)
    → AreTaken lines
    → on_new_connection telnet_printf lines client ≡ undefined
unfolding on_new_connection
on_new_connection-full telnet_printf lines client taken = rw (add_line-full lines client taken) refl
