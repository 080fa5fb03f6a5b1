-- ===== src/HashTable/Map.antt =====
-- The hash table of src/item.c as a map from keys to children.
use mathlib.Core.List.{flatten}
use native.Mathlib.Decide.{ℕ_discrete}
use sin.HashTable.Entries.{
  count, or_else, find-append, count-append, count-eq-zero, find-remove, count-remove-le,
}
use sin.HashTable.Placed.{
  home, Placed-replicate, chain_of, find-chain_of, count-chain_of, Placed-remove,
}
use sin.HashTable.Writes.{
  view, IsSound, IsHashTable, Models, update, hash_index-home, chain-eq, chain_of-set_same,
  chain_of-set_ne, other_home, append_entry-Appended,
}
use sin.HashTable.{
  Entry, Chain, HashTable, create_hashtable, find_entry, remove_entry, insert_hashtable,
  delete_hashtable, move_chain, move_chains, resize_hashtable, maybe_resize_hashtable, num_entries,
}
use sin.Outcome.{Returns}
use sin.Prelude.{
  ℕ, zero, suc, ◌+◌, ◌*◌, ◌≤◌, ◌<◌, ◌≡◌, refl, ap, ◌∙◌, none, some, List, [], ◌∷◌, arith, get_or,
  set, length-set, length-replicate, if◌then◌else◌, Bytes, str_eq, str_eq→eq, ltb, Bool-cases, inl,
  inr,
}

empty-size {ℓ} : (A : Type ℓ) (n : ℕ) → (create_hashtable {A = A} n).size ≡ n
unfolding create_hashtable
empty-size A n = refl

module _ {ℓ} {A : Type ℓ} where
  -- `insert_hashtable` of a key that a well-formed table does not have returns a table that gives the
  -- child for that key and keeps every other key and the number of buckets.
  pub insert_hashtable-Models :
      (t : HashTable A) (k : Bytes) (a : A)
      → IsHashTable t
      → view t k ≡ none
      → Returns
          (insert_hashtable t k a)
          (λ t'. Models (update (view t) k (some a)) t' × (t'.size ≡ t.size))
  unfolding insert_hashtable view
  insert_hashtable-Models t k a v absent =
      let e : Entry A = record { key = k; child = a } in
      let (t', run, w) = append_entry-Appended t e v.sound in
      (
        t',
        run,
        (
          (
            record {
              sound = w.sound;
              unique = λ q.
                  ground (
                    arith,
                    w.counts q,
                    v.unique q,
                    str_eq→eq k q,
                    count-eq-zero k (flatten t.table),
                  );
            },
            λ q. ground (arith, w.reads q, str_eq→eq k q),
          ),
          w.size,
        ),
      )

  -- One chain after another: the loops of `resize_hashtable` append every entry in turn.
  pub record Moved (t : HashTable A) (es : Chain A) (t' : HashTable A) : Type ℓ where
    pub sound : IsSound t'
    pub size : t'.size ≡ t.size
    pub reads : (q : Bytes) → view t' q ≡ or_else (view t q) (find_entry q es)
    pub counts : (q : Bytes) → count q (flatten t'.table) ≡ count q (flatten t.table) + count q es

  move_chain-Moved :
      (es : Chain A) (t : HashTable A) → IsSound t → Returns (move_chain es t) (Moved t es)
  unfolding move_chain find_entry count
  move_chain-Moved [] t v = (
    t,
    refl,
    record { sound = v; size = refl; reads = λ q. ground arith; counts = λ q. ground arith },
  )
  move_chain-Moved (e ∷ es) t v =
      let (t1, run1, w1) = append_entry-Appended t e v in
      let (t2, run2, w2) = move_chain-Moved es t1 w1.sound in
      (
        t2,
        rw run1 run2,
        record {
          sound = w2.sound;
          size = w2.size ∙ w1.size;
          reads = λ q. ground (arith, w2.reads q, w1.reads q);
          counts = λ q. ground (arith, w2.counts q, w1.counts q);
        },
      )

  move_chains-Moved :
      (cs : List (Chain A)) (t : HashTable A)
      → IsSound t
      → Returns (move_chains cs t) (Moved t (flatten cs))
  unfolding move_chains flatten find_entry count
  move_chains-Moved [] t v = (
    t,
    refl,
    record { sound = v; size = refl; reads = λ q. ground arith; counts = λ q. ground arith },
  )
  move_chains-Moved (c ∷ cs) t v =
      let (t1, run1, w1) = move_chain-Moved c t v in
      let (t2, run2, w2) = move_chains-Moved cs t1 w1.sound in
      (
        t2,
        rw run1 run2,
        record {
          sound = w2.sound;
          size = w2.size ∙ w1.size;
          reads = λ q. rw (find-append q c (flatten cs)) (ground (arith, w2.reads q, w1.reads q));
          counts =
              λ q. rw (count-append q c (flatten cs)) (omega (arith, w2.counts q, w1.counts q));
        },
      )

  empty-IsSound : (n : ℕ) → 0 < n → IsSound (create_hashtable {A = A} n)
  unfolding create_hashtable
  empty-IsSound n h = record {
    sized = length-replicate n [];
    nonempty = h;
    placed = Placed-replicate A n 0 n;
  }

  empty-flatten : (n : ℕ) → flatten (create_hashtable {A = A} n).table ≡ []
  unfolding create_hashtable flatten
  empty-flatten zero = refl
  empty-flatten (suc n) = empty-flatten n

  -- A new table of a positive size is sound and empty.
  pub create_hashtable-Models : (n : ℕ) → 0 < n → Models (λ _. none) (create_hashtable {A = A} n)
  unfolding view find_entry count
  create_hashtable-Models n h =
      let e = empty-flatten n in
      (record { sound = empty-IsSound n h; unique = λ k. rw e (omega arith) }, λ k. rw e refl)

  -- Resizing keeps the map, and gives the size that was asked for.
  pub resize_hashtable-Models :
      (t : HashTable A) (n : ℕ)
      → IsHashTable t
      → 0 < n
      → Returns (resize_hashtable t n) (λ t'. Models (view t) t' × (t'.size ≡ n))
  unfolding resize_hashtable view find_entry count
  resize_hashtable-Models t n v h =
      let e = empty-flatten n in
      let (t', run, w) = move_chains-Moved t.table (create_hashtable n) (empty-IsSound n h) in
      (
        t',
        run,
        (
          (
            record {
              sound = w.sound;
              unique = λ k. rw (w.counts k, e) (omega (arith, v.unique k));
            },
            λ k. w.reads k ∙ rw e refl,
          ),
          w.size ∙ empty-size A n,
        ),
      )

  -- `maybe_resize_hashtable` keeps the map, whether it resizes or not.
  pub maybe_resize_hashtable-Models :
      (t : HashTable A) → IsHashTable t → Returns (maybe_resize_hashtable t) (Models (view t))
  unfolding maybe_resize_hashtable
  maybe_resize_hashtable-Models t v = elim (Bool-cases (ltb (t.size * 3) (num_entries t * 4))) [
    | inl full ↦
        let (t', run, (m, _)) = resize_hashtable-Models t (t.size * 2 + 1) v (omega arith) in
        (t', rw full run, m)
    | inr roomy ↦ (t, rw roomy refl, (v, λ k. refl))
  ]

module _ {ℓ} {A : Type ℓ} (t : HashTable A) (v : IsHashTable t) (k q : Bytes) where
  shorter : Chain A
  shorter = remove_entry k (chain_of t.size t.table k)

  removed : List (Chain A)
  removed = set t.table (home t.size k) shorter

  once : count k (chain_of t.size t.table k) ≤ 1
  once = rw (← count-chain_of t.size t.table v.sound.placed k) (v.unique k)

  removed-reads :
      find_entry q (flatten removed) ≡ (if str_eq k q then none else find_entry q (flatten t.table))
  unfolding removed shorter
  removed-reads =
      rw
        (
          find-chain_of t.size removed (Placed-remove t.size t.table v.sound.placed k) q,
          find-chain_of t.size t.table v.sound.placed q,
        )
        (elim (ℕ_discrete (home t.size q) (home t.size k)) [
          | yes same ↦
              let e1 = chain_of-set_same t v.sound k shorter q same in
              let e2 : chain_of t.size t.table q ≡ chain_of t.size t.table k =
                ap (λ i. get_or t.table i []) same in
              rw (e1, e2) (find-remove k q (chain_of t.size t.table k) once)
          | no ne ↦
              let e1 = chain_of-set_ne t v.sound k shorter q ne in
              rw (e1, other_home t.size k q ne) refl
        ])

  removed-counts : count q (flatten removed) ≤ count q (flatten t.table)
  unfolding removed shorter
  removed-counts =
      rw
        (
          count-chain_of t.size removed (Placed-remove t.size t.table v.sound.placed k) q,
          count-chain_of t.size t.table v.sound.placed q,
        )
        (elim (ℕ_discrete (home t.size q) (home t.size k)) [
          | yes same ↦
              let e1 = chain_of-set_same t v.sound k shorter q same in
              let e2 : chain_of t.size t.table q ≡ chain_of t.size t.table k =
                ap (λ i. get_or t.table i []) same in
              rw (e1, e2) (count-remove-le k q (chain_of t.size t.table k))
          | no ne ↦ rw (chain_of-set_ne t v.sound k shorter q ne) (omega arith)
        ])

-- Deletion hides the key, whether it was there or not, and no other.
pub delete_hashtable-Models {ℓ} :
    {A : Type ℓ} (t : HashTable A) (k : Bytes)
    → IsHashTable t
    → Returns (delete_hashtable t k) (λ t'. Models (update (view t) k none) t' × (t'.size ≡ t.size))
unfolding delete_hashtable view removed shorter
delete_hashtable-Models t k v = (
  record t { table = removed t v k k },
  rw (hash_index-home k t.size v.sound.nonempty, chain-eq t v.sound k) refl,
  (
    (
      record {
        sound = record {
          sized = length-set t.table _ (shorter t v k k) ∙ v.sound.sized;
          nonempty = v.sound.nonempty;
          placed = Placed-remove t.size t.table v.sound.placed k;
        };
        unique = λ q. omega (arith, removed-counts t v k q, v.unique q);
      },
      λ q. removed-reads t v k q,
    ),
    refl,
  ),
)
