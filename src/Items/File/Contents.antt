-- ===== src/Items/File/Contents.antt =====
-- The value or the bytecode of an item in a file (src/item.c), read back from what was written.
use sin.Items.File.Fields.{append_assoc, fread-append, read_number4, read_number8, take_exact}
use sin.Items.File.{
  le_bytes, read_number, write_content, read_content, Content, plain, code, write_by, read_value,
  read_word, read_text, read_code, bytes_of,
}
use sin.Items.{value_item, code_item, Item}
use sin.Outcome.{Outcome, ok, Returns, ◌>>=◌}
use sin.Prelude.{
  AreChars, c_string-chars, ℕ, ◌^◌, ◌<◌, ◌≡◌, refl, some, [], ◌∷◌, ◌++◌, length, arith, Bytes,
  lt→ltb,
}
use sin.Value.{ValueType, int, str, nil, bool, Payload, word, text, str_value}

-- What a file can keep of a value: its word, or a string without nulls of fewer than 2 ^ 31 bytes.
abbrev pub KeepsPayload : ValueType → Payload → Type 0
KeepsPayload int (word w) = w < 2 ^ 64
KeepsPayload nil (word w) = w < 2 ^ 64
KeepsPayload bool (word w) = w < 2 ^ 64
KeepsPayload str (text s) = AreChars s × (length s < 2 ^ 31)
KeepsPayload _ _ = ⊥

abbrev pub IsKept : Content → Type 0
IsKept (plain v) = KeepsPayload v.type v.payload
IsKept (code b) = length b < 2 ^ 32

-- The item has this content.
abbrev pub HasContent : Item → Content → Type 0
HasContent item (plain v) = (item.type ≡ value_item) × (item.value ≡ v)
HasContent item (code b) =
    (item.type ≡ code_item) × (item.bytecode ≡ some b) × (item.bytecode_len ≡ length b)

abbrev read_tagged : Bytes → Outcome (Content × Bytes)
read_tagged file = do (tag, rest) ← read_number 4 file; read_value tag rest

-- A tag and a word behind it.
read_tagged-word :
    (n w : ℕ) (type : ValueType) (rest : Bytes)
    → n < 4
    → w < 2 ^ 64
    → ((file : Bytes) → read_value n file ≡ read_word type file)
    → read_tagged ((le_bytes 4 n ++ le_bytes 8 w) ++ rest)
      ≡ ok (plain (record { type = type; payload = word w }), rest)
read_tagged-word n w type rest hn hw tag =
    rw
      (
        append_assoc (le_bytes 4 n) (le_bytes 8 w) rest,
        read_number4 n (le_bytes 8 w ++ rest) (omega arith),
        tag (le_bytes 8 w ++ rest),
        read_number8 w rest hw,
      )
      refl

read_text-chars :
    (s rest : Bytes)
    → AreChars s
    → length s < 2 ^ 31
    → read_text (le_bytes 4 (length s) ++ (s ++ rest)) ≡ ok (plain (str_value s), rest)
read_text-chars s rest chars h =
    let e = lt→ltb (length s) (2 ^ 31) h in
    rw
      (
        read_number4 (length s) (s ++ rest) (omega arith),
        e,
        fread-append s rest,
        c_string-chars s chars,
      )
      refl

read_tagged-text :
    (s rest : Bytes)
    → AreChars s
    → length s < 2 ^ 31
    → read_tagged ((le_bytes 4 1 ++ (le_bytes 4 (length s) ++ s)) ++ rest)
      ≡ ok (plain (str_value s), rest)
read_tagged-text s rest chars h =
    rw
      (
        append_assoc (le_bytes 4 1) (le_bytes 4 (length s) ++ s) rest,
        append_assoc (le_bytes 4 (length s)) s rest,
        read_number4 1 (le_bytes 4 (length s) ++ (s ++ rest)) (omega arith),
      )
      (read_text-chars s rest chars h)

-- A value that a file can keep comes back from what is written of it.
read_tagged-write_by :
    (type : ValueType) (payload : Payload)
    → KeepsPayload type payload
    → Returns (write_by type (record { type = type; payload = payload })) (λ bs.
      (rest : Bytes)
      → read_tagged (bs ++ rest) ≡ ok (plain (record { type = type; payload = payload }), rest))
read_tagged-write_by int (word w) h =
    (_, refl, λ rest. read_tagged-word 0 w int rest (omega arith) h (λ file. refl))
read_tagged-write_by nil (word w) h =
    (_, refl, λ rest. read_tagged-word 2 w nil rest (omega arith) h (λ file. refl))
read_tagged-write_by bool (word w) h =
    (_, refl, λ rest. read_tagged-word 3 w bool rest (omega arith) h (λ file. refl))
read_tagged-write_by str (text s) (chars, h) =
    (_, rw (lt→ltb (length s) (2 ^ 31) h) refl, λ rest. read_tagged-text s rest chars h)
read_tagged-write_by int (text s) h = absurd h
read_tagged-write_by nil (text s) h = absurd h
read_tagged-write_by bool (text s) h = absurd h
read_tagged-write_by str (word w) h = absurd h

bytes_of-whole : (b : Bytes) → bytes_of (length b) (some b) ≡ ok b
bytes_of-whole [] = refl
bytes_of-whole (x ∷ b) = rw (take_exact b) (ground arith)

read_code-bytes :
    (b rest : Bytes)
    → length b < 2 ^ 32
    → read_code ((le_bytes 4 (length b) ++ b) ++ rest) ≡ ok (code b, rest)
read_code-bytes b rest h =
    rw
      (
        append_assoc (le_bytes 4 (length b)) b rest,
        read_number4 (length b) (b ++ rest) h,
        fread-append b rest,
      )
      refl

-- The content of an item comes back from what is written of it.
pub read_content-write_content :
    (item : Item) (c : Content)
    → IsKept c
    → HasContent item c
    → Returns (write_content item) (λ bs. (rest : Bytes) → read_content (bs ++ rest) ≡ ok (c, rest))
unfolding write_content read_content
read_content-write_content item (plain v) kept (is_value, same) =
    let (bs, e, back) = read_tagged-write_by v.type v.payload kept in
    (
      le_bytes 4 0 ++ bs,
      rw (is_value, same, e) refl,
      λ rest.
          rw (append_assoc (le_bytes 4 0) bs rest, read_number4 0 (bs ++ rest) (omega arith))
            (back rest),
    )
read_content-write_content item (code b) kept (is_code, has, len) =
    let bs = le_bytes 4 (length b) ++ b in
    (
      le_bytes 4 1 ++ bs,
      rw (is_code, has, len, bytes_of-whole b) refl,
      λ rest.
          rw (append_assoc (le_bytes 4 1) bs rest, read_number4 1 (bs ++ rest) (omega arith))
            (read_code-bytes b rest kept),
    )
