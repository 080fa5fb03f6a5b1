-- ===== src/Tests/LineRuns.antt =====
-- Runs of src/network.c and src/util.c.
use sin.Network.Input.{Fits, get_input-overflow, get_input-null}
use sin.Network.Lines.{IsTaken, add_line-IsTaken, taken}
use sin.Network.{
  Line, idle, data_ready, empty_line, newline, memchr, strchr, append_input, split_line, get_input,
  add_line,
}
use sin.Outcome.{ok, undefined, Returns}
use sin.Prelude.{
  zero, suc, c_string, AreChars, ℕ, ◌≡◌, ◌⊎◌, refl, none, some, List, [], ◌∷◌, ◌++◌, length, Bytes,
  codes, replicate, arith,
}

-- A line that has received `look` without the newline.
abbrev waiting_line : Line
waiting_line = record (empty_line 0) {
  line_handle = 12;
  status = idle;
  inbuf = record { bytes = codes "look"; size = 16384 };
}

abbrev rest_of_look : Bytes
rest_of_look = 10 ∷ codes "say"

abbrev ready_line : Line
ready_line = record waiting_line {
  status = data_ready;
  inbuf = record { bytes = codes "look" ++ rest_of_look; size = 16384 };
}

-- `look`, a newline, `say`, a null and a `!`: the `!` is lost.
abbrev cut_line : Line
cut_line = record ready_line {
  inbuf = record { bytes = codes "look" ++ (rest_of_look ++ (0 ∷ 33 ∷ [])); size = 16384 };
}

cut_text :
    get_input cut_line
    ≡ ok (
      codes "look",
      record cut_line { status = idle; inbuf = record { bytes = codes "say"; size = 16384 } },
    )
unfolding get_input split_line strchr memchr c_string
cut_text = refl

abbrev long_rest : Bytes
long_rest = replicate 16384 97

long_rest-AreChars : (n : ℕ) → AreChars (replicate n 97)
long_rest-AreChars zero = tt
long_rest-AreChars (suc n) = ((λ e. omega arith), long_rest-AreChars n)

abbrev fresh_line : Line
fresh_line = record waiting_line { inbuf = record { bytes = []; size = 16384 } }

get_input-overflow_example :
    Returns
      (append_input fresh_line (codes "h" ++ (newline ∷ long_rest)))
      (λ line'. Fits line'.inbuf × (line'.status ≡ data_ready) × (get_input line' ≡ undefined))
unfolding memchr
get_input-overflow_example =
    get_input-overflow fresh_line refl (codes "h") long_rest refl
      ((λ e. omega arith), ((λ e. omega arith), long_rest-AreChars 16384)) refl (omega arith)

get_input-null_example :
    Returns
      (append_input waiting_line ([] ++ (0 ∷ 10 ∷ [])))
      (λ line'. (line'.status ≡ data_ready) × (get_input line' ≡ undefined))
unfolding memchr
get_input-null_example = get_input-null waiting_line refl [] (10 ∷ []) refl refl refl

-- A taken line below an empty one that still has the handle 12.
abbrev lines : List Line
lines =
    record (empty_line 0) { line_handle = 11; status = idle }
    ∷ record (empty_line 1) { line_handle = 12 }
    ∷ []

add_line-IsTaken_example :
    ((add_line lines 12 ≡ none) × (taken lines ≡ length lines))
    ⊎ ((got : ℕ × List Line) × (add_line lines 12 ≡ some got) × IsTaken lines 12 got)
add_line-IsTaken_example = add_line-IsTaken lines 12 refl
