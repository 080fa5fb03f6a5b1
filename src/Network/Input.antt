-- ===== src/Network/Input.antt =====
-- What goes through the buffers of src/network.c.
use sin.Network.{
  Line, data_ready, Buffer, inbuf_length, newline, memchr, is_open, grow, append_buffer,
  append_input, split_line, get_input,
}
use sin.Outcome.{undefined, Returns}
use sin.Prelude.{
  ℕ, zero, suc, ◌+◌, ◌*◌, ◌<◌, ◌≤◌, ◌≡◌, refl, ap, true, false, some, [], ◌∷◌, ◌++◌, length,
  length-append, c_string, AreChars, c_string-chars, ◌∙◌, none, if◌then◌else◌, Bytes, arith,
}

-- The buffer holds its bytes and a null.
abbrev pub Fits : Buffer → Type 0
Fits b = length b.bytes < b.size

grow-enough :
    (fuel needed size : ℕ) → needed < size + fuel * inbuf_length → needed < grow fuel needed size
unfolding grow
grow-enough zero needed size h = omega arith
grow-enough (suc fuel) needed size h = ground (arith, grow-enough fuel needed (size + inbuf_length))

append_buffer-Fits :
    (b : Buffer) (msg : Bytes)
    → Returns (append_buffer b msg) (λ b'. Fits b' × (b'.bytes ≡ b.bytes ++ msg))
unfolding append_buffer
append_buffer-Fits b msg =
    let needed = length b.bytes + length msg + 1 in
    let big = grow-enough (needed + 1) needed b.size (omega arith) in
    let len = length-append b.bytes msg in
    (
      record { bytes = b.bytes ++ msg; size = grow (needed + 1) needed b.size },
      ground arith,
      (omega arith, refl),
    )

-- On an open line, `append_input` adds the text to the buffer, which stays large enough, and the
-- line is ready exactly where the text has a newline or the line was ready before.
pub append_input-appends :
    (line : Line) (msg : Bytes)
    → is_open line.status ≡ true
    → Returns (append_input line msg) (λ line'.
      Fits line'.inbuf
      × (line'.inbuf.bytes ≡ line.inbuf.bytes ++ msg)
      × (line'.outbuf ≡ line.outbuf)
      × (line'.status ≡ (if memchr newline msg then data_ready else line.status)))
unfolding append_input
append_input-appends line msg is_on =
    let (b, e, (fits, bytes)) = append_buffer-Fits line.inbuf msg in
    (
      record line { status = if memchr newline msg then data_ready else line.status; inbuf = b },
      rw (is_on, e) refl,
      (fits, bytes, refl, refl),
    )

split_line-none : (bs : Bytes) → memchr newline bs ≡ false → split_line bs ≡ none
unfolding memchr split_line
split_line-none [] h = refl
split_line-none (b ∷ bs) h = ground (arith, split_line-none bs)

split_line-first :
    (text after : Bytes)
    → memchr newline text ≡ false
    → split_line (text ++ (newline ∷ after)) ≡ some (text, after)
unfolding memchr split_line
split_line-first [] after h = refl
split_line-first (b ∷ text) after h = ground (arith, split_line-first text after)

memchr-middle : (text after : Bytes) → memchr newline (text ++ (newline ∷ after)) ≡ true
unfolding memchr
memchr-middle [] after = refl
memchr-middle (b ∷ text) after = ground (arith, memchr-middle text after)

memchr-behind : (c : ℕ) (a b : Bytes) → memchr c b ≡ true → memchr c (a ++ (0 ∷ b)) ≡ true
unfolding memchr
memchr-behind c [] b h = ground arith
memchr-behind c (x ∷ a) b h = ground (arith, memchr-behind c a b)

-- A byte that neither part has is not found before the null behind them.
memchr-until_null :
    (c : ℕ) (a b rest : Bytes)
    → memchr c a ≡ false
    → memchr c b ≡ false
    → memchr c (c_string (a ++ (b ++ (0 ∷ rest)))) ≡ false
unfolding memchr c_string
memchr-until_null c [] [] rest h k = refl
memchr-until_null c [] (x ∷ b) rest h k = ground (arith, memchr-until_null c [] b rest h)
memchr-until_null c (x ∷ a) b rest h k = ground (arith, memchr-until_null c a b rest)

module _ (line : Line) (is_on : is_open line.status ≡ true) where
  heard_first :
      (text after : Bytes)
      → line.inbuf.bytes ≡ []
      → Returns (append_input line (text ++ (newline ∷ after))) (λ line'.
        Fits line'.inbuf
        × (line'.inbuf.bytes ≡ text ++ (newline ∷ after))
        × (line'.status ≡ data_ready))
  heard_first text after nothing =
      let msg = text ++ (newline ∷ after) in
      let (line', e, (fits, bytes, _, status)) = append_input-appends line msg is_on in
      let all : line'.inbuf.bytes ≡ msg = bytes ∙ ap (λ (b : Bytes). b ++ msg) nothing in
      (line', e, (fits, all, status ∙ rw (memchr-middle text after) refl))

  -- On an open line that waits for input, `append_input` takes in a text with a newline whatever its
  -- length and says that there is data; where there are no nulls, and `inbuf_length` bytes or more
  -- behind the first newline, the `get_input` that follows copies them into a buffer too small for
  -- them.
  pub get_input-overflow :
      (text after : Bytes)
      → line.inbuf.bytes ≡ []
      → AreChars (text ++ (newline ∷ after))
      → memchr newline text ≡ false
      → inbuf_length ≤ length after
      → Returns
          (append_input line (text ++ (newline ∷ after)))
          (λ line'. Fits line'.inbuf × (line'.status ≡ data_ready) × (get_input line' ≡ undefined))
  unfolding get_input
  get_input-overflow text after nothing chars none_in big =
      let (line', e, (fits, bytes, ready)) = heard_first text after nothing in
      let read : c_string line'.inbuf.bytes ≡ text ++ (newline ∷ after) =
        ap c_string bytes ∙ c_string-chars (text ++ (newline ∷ after)) chars in
      (line', e, (fits, ready, rw (read, split_line-first text after none_in) (ground arith)))

  -- On an open line without a newline in its buffer, `append_input` of a text that has newlines behind
  -- its first null alone says that there is data, and the `get_input` that follows goes through the
  -- NULL that it gets for the newline.
  pub get_input-null :
      (before after : Bytes)
      → memchr newline line.inbuf.bytes ≡ false
      → memchr newline before ≡ false
      → memchr newline after ≡ true
      → Returns
          (append_input line (before ++ (0 ∷ after)))
          (λ line'. (line'.status ≡ data_ready) × (get_input line' ≡ undefined))
  unfolding get_input
  get_input-null before after h h' h'' =
      let msg = before ++ (0 ∷ after) in
      let (line', e, (fits, bytes, _, status)) = append_input-appends line msg is_on in
      let unseen : memchr newline (c_string line'.inbuf.bytes) ≡ false =
        rw bytes (memchr-until_null newline line.inbuf.bytes before after h h') in
      (
        line',
        e,
        (
          status ∙ rw (memchr-behind newline before after h'') refl,
          rw (split_line-none (c_string line'.inbuf.bytes) unseen) refl,
        ),
      )
