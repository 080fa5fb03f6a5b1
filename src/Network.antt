-- ===== src/Network.antt =====
-- The lines of src/network.c and their buffers. Handles of libuv are numbers.
pub mod Input
pub mod Lines
pub mod Events
use sin.Outcome.{Outcome, ok, undefined, ◌>>=◌}
use sin.Prelude.{
  ℕ, zero, suc, ◌+◌, ◌*◌, Bool, true, false, Option, none, some, List, [], ◌∷◌, ◌++◌, length,
  get_elem?, set, replicate, ltb, leb, ◌==◌, if◌then◌else◌, Bytes, ◌||◌, c_string,
}

abbrev pub inbuf_length : ℕ
inbuf_length = 16384

pub data LineStatus : Type 0 where
  empty connecting idle data_ready disconnecting : LineStatus

-- `write_req_t`: the bytes up to `buf.len`, and the size of the allocation. Behind the bytes of an
-- input buffer there is a null.
pub record Buffer : Type 0 where
  pub bytes : Bytes
  pub size : ℕ

-- `LINE_t`
pub record Line : Type 0 where
  pub line_handle : ℕ
  pub status : LineStatus
  pub linenum : ℕ
  pub outbuf : Buffer
  pub inbuf : Buffer

abbrev pub newline : ℕ
newline = 10

-- `memchr`
unfoldable pub memchr : ℕ → Bytes → Bool
memchr c [] = false
memchr c (b ∷ bs) = b == c || memchr c bs

-- `strchr`, which goes no further than the first null.
unfoldable pub strchr : ℕ → Bytes → Bool
unfolding memchr
strchr c bs = memchr c (c_string bs)

abbrev pub is_open : LineStatus → Bool
is_open empty = false
is_open disconnecting = false
is_open _ = true

abbrev pub is_empty : LineStatus → Bool
is_empty empty = true
is_empty _ = false

-- The loop that grows a buffer until `len + n + 1` is below its size; each round adds
-- `inbuf_length`, so `n + 2` rounds are enough for a buffer that holds its bytes.
unfoldable pub grow : ℕ → ℕ → ℕ → ℕ
grow zero needed size = size
grow (suc fuel) needed size =
    let rest = grow fuel needed (size + inbuf_length) in if leb size needed then rest else size

unfoldable pub append_buffer : Buffer → Bytes → Outcome Buffer
unfolding grow
append_buffer b msg =
    let needed = length b.bytes + length msg + 1 in
    let size = grow (needed + 1) needed b.size in
    if ltb (length b.bytes + length msg) size
    then ok (record { bytes = b.bytes ++ msg; size = size })
    else undefined

unfoldable pub append_output : Line → Bytes → Outcome Line
append_output line msg =
    if is_open line.status
    then (do outbuf ← append_buffer line.outbuf msg; ok (record line { outbuf = outbuf }))
    else ok line

unfoldable pub append_input : Line → Bytes → Outcome Line
append_input line msg =
    if is_open line.status
    then (do
      let status = if memchr newline msg then data_ready else line.status
      inbuf ← append_buffer line.inbuf msg
      ok (record line { status = status; inbuf = inbuf }))
    else ok line

-- The text before the first newline and the text behind it.
unfoldable pub split_line : Bytes → Option (Bytes × Bytes)
split_line [] = none
split_line (b ∷ bs) =
    let rest = split_line bs in
    if b == newline
    then some ([], bs)
    else elim rest [ none ↦ none | some (text, after) ↦ some (b ∷ text, after) ]

-- The new buffer has `inbuf_length` bytes whatever the old one had: `strcpy` of more writes past it.
abbrev pub take_data : Line → Option (Bytes × Bytes) → Outcome (Bytes × Line)
take_data line none = undefined
take_data line (some (text, after)) =
    if ltb (length after) inbuf_length
    then ok (
      text,
      record line {
        inbuf = record { bytes = after; size = inbuf_length };
        status = if strchr newline after then line.status else idle;
      },
    )
    else undefined

-- `strchr`, `strdup`, `strcpy` and `strlen` see the buffer up to its first null: a newline behind it
-- is not found, and what stands behind it is lost. `append_input` puts a null behind the bytes.
unfoldable pub get_input : Line → Outcome (Bytes × Line)
get_input line = take_data line (split_line (c_string line.inbuf.bytes))

unfoldable pub flush_output : Line → Bytes × Line
flush_output line =
    if ltb 0 (length line.outbuf.bytes)
    then (line.outbuf.bytes, record line { outbuf = record (line.outbuf) { bytes = [] } })
    else ([], line)

abbrev pub empty_line : ℕ → Line
empty_line n = record {
  line_handle = 0;
  status = empty;
  linenum = n;
  outbuf = record { bytes = []; size = 0 };
  inbuf = record { bytes = []; size = 0 };
}

unfoldable pub lines_from : ℕ → ℕ → List Line
lines_from zero l = []
lines_from (suc n) l = empty_line l ∷ lines_from n (l + 1)

unfoldable pub init_networking : ℕ → List Line
unfolding lines_from
init_networking maxconns = lines_from maxconns 0

abbrev pub connecting_line : Line → ℕ → Line
connecting_line line handle = record line {
  line_handle = handle;
  status = connecting;
  outbuf = record { bytes = []; size = inbuf_length };
  inbuf = record { bytes = []; size = inbuf_length };
}

-- The first empty line is taken; `none` where there is none. At least one line is configured.
unfoldable pub add_line : List Line → ℕ → Option (ℕ × List Line)
add_line [] handle = none
add_line (line ∷ rest) handle =
    let later = add_line rest handle in
    if is_empty line.status
    then some (0, connecting_line line handle ∷ rest)
    else elim later [ none ↦ none | some (l, ls) ↦ some (suc l, line ∷ ls) ]

-- The memory of the line is freed, and its status set; the pointers to it dangle.
unfoldable pub destroy_line : Line → Line
destroy_line line = record line { status = empty }

unfoldable pub find_line : List Line → ℕ → Option ℕ
find_line [] client = none
find_line (line ∷ rest) client =
    let later = find_line rest client in
    if line.line_handle == client
    then some 0
    else elim later [ none ↦ none | some l ↦ some (suc l) ]
