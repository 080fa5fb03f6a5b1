-- ===== src/HashTable/Entries.antt =====
-- Facts about chains of entries (src/item.c).
use sin.HashTable.{Chain, find_entry, remove_entry}
use sin.Prelude.{
  ℕ, ◌+◌, ◌≤◌, ◌≡◌, refl, Option, none, some, [], ◌∷◌, ◌++◌, arith, if◌then◌else◌, Bytes, str_eq,
  str_eq_refl, str_eq→eq, bit,
}

module _ {ℓ} {A : Type ℓ} where
  -- How often a key occurs.
  unfoldable pub count : Bytes → Chain A → ℕ
  count k [] = 0
  count k (e ∷ c) = bit (str_eq e.key k) + count k c

  abbrev pub or_else : Option A → Option A → Option A
  or_else (some a) o = some a
  or_else none o = o

  pub find-append :
      (k : Bytes) (a b : Chain A)
      → find_entry k (a ++ b) ≡ or_else (find_entry k a) (find_entry k b)
  unfolding find_entry
  find-append k [] b = refl
  find-append k (e ∷ a) b = ground (arith, find-append k a b)

  pub count-append : (k : Bytes) (a b : Chain A) → count k (a ++ b) ≡ count k a + count k b
  unfolding count
  count-append k [] b = omega arith
  count-append k (e ∷ a) b = omega (arith, count-append k a b)

  pub find-eq-none : (k : Bytes) (c : Chain A) → count k c ≡ 0 → find_entry k c ≡ none
  unfolding count find_entry
  find-eq-none k [] h = refl
  find-eq-none k (e ∷ c) h = ground (arith, find-eq-none k c)

  pub count-eq-zero : (k : Bytes) (c : Chain A) → find_entry k c ≡ none → count k c ≡ 0
  unfolding count find_entry
  count-eq-zero k [] h = refl
  count-eq-zero k (e ∷ c) h = ground (arith, count-eq-zero k c)

  -- Unlinking the one entry of a key hides that key alone.
  pub find-remove :
      (k q : Bytes) (c : Chain A)
      → count k c ≤ 1
      → find_entry q (remove_entry k c) ≡ (if str_eq k q then none else find_entry q c)
  unfolding count find_entry remove_entry
  find-remove k q [] h = ground arith
  find-remove k q (e ∷ c) h =
      ground (
        arith,
        find-remove k q c,
        str_eq→eq e.key k,
        str_eq→eq k q,
        str_eq_refl k,
        find-eq-none k c,
      )

  pub count-remove-le : (k q : Bytes) (c : Chain A) → count q (remove_entry k c) ≤ count q c
  unfolding count remove_entry
  count-remove-le k q [] = omega arith
  count-remove-le k q (e ∷ c) = ground (arith, count-remove-le k q c)
