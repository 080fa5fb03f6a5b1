-- ===== src/Items/Names.antt =====
-- The names of items in src/item.c: layers with dots between them.
use sin.Outcome.{Outcome, ok, undefined}
use sin.Prelude.{
  ℕ, Bool, true, false, List, [], ◌∷◌, length, ltb, leb, ◌==◌, if◌then◌else◌, ◌&&◌, ◌||◌, not,
  Bytes,
}

abbrev pub dot : ℕ
dot = 46

abbrev pub max_item_name : ℕ
max_item_name = 264

-- `char layer[33]` holds 32 characters and a null; `memcpy` of more writes past it.
unfoldable pub copy_layer : Bytes → Outcome Bytes
copy_layer layer = if ltb 32 (length layer) then undefined else ok layer

-- A character in front of the first layer.
abbrev pub in_first : ℕ → List Bytes → List Bytes
in_first c [] = (c ∷ []) ∷ []
in_first c (l ∷ ls) = (c ∷ l) ∷ ls

-- What `strchr(current_pos, '.')` cuts a name into, round after round.
unfoldable pub split_name : Bytes → List Bytes
split_name [] = [] ∷ []
split_name (c ∷ cs) = let rest = split_name cs in if c == dot then [] ∷ rest else in_first c rest

-- `*current_pos == '\0'`
abbrev pub is_end : Bytes → List Bytes → Bool
is_end [] [] = true
is_end _ _ = false

abbrev pub is_layer_char : ℕ → Bool
is_layer_char c =
    (leb 65 c && leb c 90) || (leb 97 c && leb c 122) || (leb 48 c && leb c 57) || c == 95

abbrev pub all_layer_chars : Bytes → Bool
all_layer_chars [] = true
all_layer_chars (c ∷ cs) = is_layer_char c && all_layer_chars cs

unfoldable pub is_valid_layer : Bytes → Bool
is_valid_layer str = not (ltb 32 (length str)) && all_layer_chars str
