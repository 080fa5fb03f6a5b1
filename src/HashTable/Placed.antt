-- ===== src/HashTable/Placed.antt =====
-- Entries stand in the bucket of their hash (src/item.c), so a bucket answers for the whole table.
use mathlib.Core.List.{flatten}
use native.Mathlib.Decide.{ℕ_discrete}
use sin.Hash.{hash_key}
use sin.HashTable.Entries.{count, find-append, count-append, find-eq-none}
use sin.HashTable.{Entry, Chain, find_entry, remove_entry}
use sin.Prelude.{
  ℕ, zero, suc, ◌+◌, ◌-◌, ◌%◌, ◌≤◌, ◌<◌, ◌≡◌, ◌≢◌, refl, List, [], ◌∷◌, ◌++◌, arith, get_or, set,
  replicate, Bytes, str_eq, str_eq→eq, Bool-cases, inl, inr,
}

-- The bucket of a key among `n`.
abbrev pub home : ℕ → Bytes → ℕ
home n k = hash_key k % n

module _ {ℓ} {A : Type ℓ} (n : ℕ) where
  -- Every key of the chain belongs to bucket `i`.
  abbrev pub InBucket : ℕ → Chain A → Type 0
  InBucket i [] = Unit
  InBucket i (e ∷ c) = (home n e.key ≡ i) × InBucket i c

  -- The buckets from number `i` on hold what belongs there.
  abbrev pub Placed : ℕ → List (Chain A) → Type 0
  Placed i [] = Unit
  Placed i (c ∷ cs) = InBucket i c × Placed (suc i) cs

  count-InBucket : (i : ℕ) (c : Chain A) (k : Bytes) → InBucket i c → home n k ≢ i → count k c ≡ 0
  unfolding count
  count-InBucket i [] k h ne = refl
  count-InBucket i (e ∷ c) k (here, h) ne =
      ground (arith, count-InBucket i c k h ne, str_eq→eq e.key k)

  InBucket-append :
      (i : ℕ) (c : Chain A) (e : Entry A)
      → InBucket i c
      → home n e.key ≡ i
      → InBucket i (c ++ (e ∷ []))
  InBucket-append i [] e h here = (here, tt)
  InBucket-append i (d ∷ c) e (p, h) here = (p, InBucket-append i c e h here)

  InBucket-remove : (i : ℕ) (c : Chain A) (k : Bytes) → InBucket i c → InBucket i (remove_entry k c)
  unfolding remove_entry
  InBucket-remove i [] k h = tt
  InBucket-remove i (e ∷ c) k (p, h) = elim (Bool-cases (str_eq e.key k)) [
    | inl same ↦ rw same h
    | inr other ↦ rw other (p, InBucket-remove i c k h)
  ]

  Placed-get :
      (i j m : ℕ) (cs : List (Chain A)) → i + j ≡ m → Placed i cs → InBucket m (get_or cs j [])
  Placed-get i j m [] e h = tt
  Placed-get i zero m (c ∷ cs) e (p, h) = let e' : m ≡ i = omega arith in rw e' p
  Placed-get i (suc j) m (c ∷ cs) e (p, h) = Placed-get (suc i) j m cs (omega arith) h

  Placed-set :
      (i j m : ℕ) (cs : List (Chain A)) (c : Chain A)
      → i + j ≡ m
      → Placed i cs
      → InBucket m c
      → Placed i (set cs j c)
  Placed-set i j m [] c e h b = tt
  Placed-set i zero m (d ∷ cs) c e (p, h) b = let e' : i ≡ m = omega arith in (rw e' b, h)
  Placed-set i (suc j) m (d ∷ cs) c e (p, h) b = (p, Placed-set (suc i) j m cs c (omega arith) h b)

  count-flatten_later :
      (i : ℕ) (cs : List (Chain A)) (k : Bytes)
      → Placed i cs
      → home n k < i
      → count k (flatten cs) ≡ 0
  unfolding flatten count
  count-flatten_later i [] k h lt = refl
  count-flatten_later i (c ∷ cs) k (p, h) lt = rw (count-append k c (flatten cs)) (
      omega (
        arith,
        count-InBucket i c k p (omega arith),
        count-flatten_later (suc i) cs k h (omega arith),
      ))

  count-flatten :
      (i : ℕ) (cs : List (Chain A)) (k : Bytes)
      → Placed i cs
      → i ≤ home n k
      → count k (flatten cs) ≡ count k (get_or cs (home n k - i) [])
  unfolding flatten
  count-flatten i [] k h le = refl
  count-flatten i (c ∷ cs) k (p, h) le = elim (ℕ_discrete (home n k) i) [
    | yes e ↦
        let first : home n k - i ≡ 0 = omega arith in
        rw (first, count-append k c (flatten cs))
          (omega (arith, count-flatten_later (suc i) cs k h (omega arith)))
    | no ne ↦
        let later : home n k - i ≡ suc (home n k - suc i) = omega arith in
        rw (later, count-append k c (flatten cs))
          (omega (arith, count-InBucket i c k p ne, count-flatten (suc i) cs k h (omega arith)))
  ]

  find-flatten :
      (i : ℕ) (cs : List (Chain A)) (k : Bytes)
      → Placed i cs
      → i ≤ home n k
      → find_entry k (flatten cs) ≡ find_entry k (get_or cs (home n k - i) [])
  unfolding flatten
  find-flatten i [] k h le = refl
  find-flatten i (c ∷ cs) k (p, h) le = elim (ℕ_discrete (home n k) i) [
    | yes e ↦
        let first : home n k - i ≡ 0 = omega arith in
        let none_later =
          find-eq-none k (flatten cs) (count-flatten_later (suc i) cs k h (omega arith)) in
        rw (first, find-append k c (flatten cs), none_later) (ground arith)
    | no ne ↦
        let later : home n k - i ≡ suc (home n k - suc i) = omega arith in
        let none_here = find-eq-none k c (count-InBucket i c k p ne) in
        rw (later, find-append k c (flatten cs), none_here)
          (find-flatten (suc i) cs k h (omega arith))
  ]

pub Placed-replicate {ℓ} : (A : Type ℓ) (n i m : ℕ) → Placed {A = A} n i (replicate m [])
Placed-replicate A n i zero = tt
Placed-replicate A n i (suc m) = (tt, Placed-replicate A n (suc i) m)

abbrev pub chain_of {ℓ} : {A : Type ℓ} → ℕ → List (Chain A) → Bytes → Chain A
chain_of n cs k = get_or cs (home n k) []

module _ {ℓ} {A : Type ℓ} (n : ℕ) (cs : List (Chain A)) (h : Placed n 0 cs) where
  -- What a bucket says of its keys holds of the table.
  pub find-chain_of : (k : Bytes) → find_entry k (flatten cs) ≡ find_entry k (chain_of n cs k)
  find-chain_of k =
      let e : home n k - 0 ≡ home n k = omega arith in
      rw e at (find-flatten n 0 cs k h (omega arith))

  pub count-chain_of : (k : Bytes) → count k (flatten cs) ≡ count k (chain_of n cs k)
  count-chain_of k =
      let e : home n k - 0 ≡ home n k = omega arith in
      rw e at (count-flatten n 0 cs k h (omega arith))

  pub Placed-append :
      (e : Entry A) → Placed n 0 (set cs (home n e.key) (chain_of n cs e.key ++ (e ∷ [])))
  Placed-append e =
      let i = home n e.key in
      Placed-set n 0 i i cs _ (omega arith) h
        (InBucket-append n i (chain_of n cs e.key) e (Placed-get n 0 i i cs (omega arith) h) refl)

  pub Placed-remove :
      (k : Bytes) → Placed n 0 (set cs (home n k) (remove_entry k (chain_of n cs k)))
  Placed-remove k =
      let i = home n k in
      Placed-set n 0 i i cs _ (omega arith) h
        (InBucket-remove n i (chain_of n cs k) k (Placed-get n 0 i i cs (omega arith) h))
