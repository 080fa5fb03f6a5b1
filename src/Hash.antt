-- ===== src/Hash.antt =====
-- The hashes of src/item.c: a key of at most 4 bytes is its own hash, a longer one goes through
-- MurmurHash3.
use Prim.Native.Nat.{bit_xor, bit_or}
use sin.Prelude.{
  ℕ, zero, suc, ◌+◌, ◌-◌, ◌*◌, ◌/◌, ◌%◌, ◌^◌, [], ◌∷◌, length, leb, if◌then◌else◌, Bytes, drop,
}

-- `uint32_t` arithmetic
abbrev u32 : ℕ → ℕ
u32 a = a % 2 ^ 32

-- `(k << r) | (k >> (32 - r))`
unfoldable pub rotate_left : ℕ → ℕ → ℕ
rotate_left k r = bit_or (u32 (k * 2 ^ r)) (k / 2 ^ (32 - r))

-- `memcpy` into a zeroed `uint32_t`, and the blocks of a key: the first byte is the lowest.
unfoldable pub simple_hash : Bytes → ℕ
simple_hash [] = 0
simple_hash (b ∷ bs) = b + 256 * simple_hash bs

abbrev block : Bytes → ℕ
block (a ∷ b ∷ c ∷ d ∷ _) = a + 256 * (b + 256 * (c + 256 * d))
block _ = 0

abbrev scramble : ℕ → ℕ
scramble k = u32 (rotate_left (u32 (k * 0xcc9e2d51)) 15 * 0x1b873593)

-- The loop over `nblocks` blocks.
unfoldable pub murmur_blocks : ℕ → Bytes → ℕ → ℕ
unfolding rotate_left
murmur_blocks zero key hash = hash
murmur_blocks (suc n) key hash =
    murmur_blocks n (drop 4 key)
      (u32 (rotate_left (bit_xor hash (scramble (block key))) 13 * 5 + 0xe6546b64))

-- `switch (len & 3)`, which falls through from the last byte of the tail to the first.
unfoldable pub murmur_tail : Bytes → ℕ → ℕ
unfolding rotate_left
murmur_tail [] hash = hash
murmur_tail (a ∷ []) hash = bit_xor hash (scramble a)
murmur_tail (a ∷ b ∷ []) hash = bit_xor hash (scramble (bit_xor (b * 2 ^ 8) a))
murmur_tail (a ∷ b ∷ c ∷ _) hash =
    bit_xor hash (scramble (bit_xor (bit_xor (c * 2 ^ 16) (b * 2 ^ 8)) a))

unfoldable pub murmur_finish : ℕ → ℕ
murmur_finish h0 =
    let h1 = u32 (bit_xor h0 (h0 / 2 ^ 16) * 0x85ebca6b) in
    let h2 = u32 (bit_xor h1 (h1 / 2 ^ 13) * 0xc2b2ae35) in bit_xor h2 (h2 / 2 ^ 16)

unfoldable pub murmur3_32 : Bytes → ℕ → ℕ
unfolding murmur_blocks murmur_tail murmur_finish
murmur3_32 key seed =
    let len = length key in
    let nblocks = len / 4 in
    let hash = murmur_tail (drop (nblocks * 4) key) (murmur_blocks nblocks key seed) in
    murmur_finish (u32 (bit_xor hash len))

-- The hash index that the table functions compute before they look at a bucket.
unfoldable pub hash_key : Bytes → ℕ
unfolding simple_hash murmur3_32
hash_key key = if leb (length key) 4 then simple_hash key else murmur3_32 key 0
