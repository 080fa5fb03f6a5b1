-- ===== src/Items/File/Fields.antt =====
-- The fields of an item in a file (src/item.c) and what is read back from them, each with any
-- `rest` behind it.
use sin.Items.File.{le_bytes, from_le, fread, read_number, name_field}
use sin.Outcome.{ok}
use sin.Prelude.{
  AreChars, ℕ, zero, suc, ◌+◌, ◌-◌, ◌/◌, ◌^◌, ◌≤◌, ◌<◌, ◌≡◌, refl, ap, ◌∙◌, [], ◌∷◌, ◌++◌, length,
  length-append, length-replicate, take, replicate, arith, Bytes, c_string,
}

pub append_assoc : (a b c : Bytes) → (a ++ b) ++ c ≡ a ++ (b ++ c)
append_assoc [] b c = refl
append_assoc (x ∷ a) b c = ap (λ (l : Bytes). x ∷ l) (append_assoc a b c)

pub fread-append : (a rest : Bytes) → fread (length a) (a ++ rest) ≡ ok (a, rest)
unfolding fread
fread-append [] rest = refl
fread-append (x ∷ a) rest = rw (fread-append a rest) refl

pub length-le_bytes : (k n : ℕ) → length (le_bytes k n) ≡ k
unfolding le_bytes
length-le_bytes zero n = refl
length-le_bytes (suc k) n = ap suc (length-le_bytes k (n / 256))

from_le_bytes4 : (n : ℕ) → n < 2 ^ 32 → from_le (le_bytes 4 n) ≡ n
unfolding from_le le_bytes
from_le_bytes4 n h = omega arith

from_le_bytes8 : (n : ℕ) → n < 2 ^ 64 → from_le (le_bytes 8 n) ≡ n
unfolding from_le le_bytes
from_le_bytes8 n h = omega arith

fread-le_bytes : (k n : ℕ) (rest : Bytes) → fread k (le_bytes k n ++ rest) ≡ ok (le_bytes k n, rest)
fread-le_bytes k n rest =
    ap (λ (j : ℕ). fread j (le_bytes k n ++ rest)) (let e = length-le_bytes k n in omega arith)
    ∙ fread-append (le_bytes k n) rest

pub read_number4 :
    (n : ℕ) (rest : Bytes) → n < 2 ^ 32 → read_number 4 (le_bytes 4 n ++ rest) ≡ ok (n, rest)
unfolding read_number
read_number4 n rest h = rw (fread-le_bytes 4 n rest, from_le_bytes4 n h) refl

pub read_number8 :
    (n : ℕ) (rest : Bytes) → n < 2 ^ 64 → read_number 8 (le_bytes 8 n ++ rest) ≡ ok (n, rest)
unfolding read_number
read_number8 n rest h = rw (fread-le_bytes 8 n rest, from_le_bytes8 n h) refl

take_all : (s : Bytes) (n : ℕ) → length s ≤ n → take n s ≡ s
take_all [] zero h = refl
take_all [] (suc n) h = refl
take_all (x ∷ s) zero h = absurd (omega arith)
take_all (x ∷ s) (suc n) h = ap (λ (l : Bytes). x ∷ l) (take_all s n (omega arith))

pub take_exact : (s : Bytes) → take (length s) s ≡ s
take_exact s = take_all s (length s) (omega arith)

c_string-padded :
    (s : Bytes) (k n : ℕ)
    → AreChars s
    → length s + k ≡ n
    → c_string (take n (s ++ replicate (suc k) 0)) ≡ s
unfolding c_string
c_string-padded [] k zero h e = refl
c_string-padded [] k (suc n) h e = refl
c_string-padded (c ∷ s) k zero h e = absurd (omega arith)
c_string-padded (c ∷ s) k (suc n) (ne, h) e = ground (arith, c_string-padded s k n h (omega arith))

-- A name of at most 32 characters comes back from its 33 bytes.
pub fread-name_field :
    (name rest : Bytes)
    → length name ≤ 32
    → fread 33 (name_field name ++ rest) ≡ ok (name_field name, rest)
unfolding name_field
fread-name_field name rest h =
    let field = name ++ replicate (33 - length name) 0 in
    let e = length-append name (replicate (33 - length name) 0) in
    let e' = length-replicate {A = ℕ} (33 - length name) 0 in
    let size : length field ≡ 33 = omega arith in
    rw (take_all name 32 h) (rw size at (fread-append field rest))

pub c_string-name_field :
    (name : Bytes) → AreChars name → length name ≤ 32 → c_string (take 32 (name_field name)) ≡ name
unfolding name_field
c_string-name_field name chars h =
    let k : 33 - length name ≡ suc (32 - length name) = omega arith in
    rw (take_all name 32 h, k) (c_string-padded name (32 - length name) 32 chars (omega arith))
