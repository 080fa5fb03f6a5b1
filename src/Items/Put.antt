-- ===== src/Items/Put.antt =====
-- The writes at the end of `insert_item` and `insert_code_item` (src/item.c).
use sin.Items.Save.{SameLinks}
use sin.Items.Walk.{measure_by, put_value, put_by, measure_tail, free_bytecode, put_code}
use sin.Items.{ItemType, value_item, code_item, Item, Store, load, save}
use sin.Outcome.{Outcome, ok, undefined, Returns}
use sin.Prelude.{
  ℕ, zero, suc, ◌≡◌, ◌⊎◌, inl, inr, refl, true, false, Option, none, some, [], ◌∷◌, length, Bytes,
  Bool-cases,
}
use sin.Value.{ValueType, int, str, nil, bool, Payload, word, text, Value}

-- What a write at item `i`, which is `item`, does: it stores the value and keeps the children and
-- the type, it refuses since the item is code that is running, or it reads or frees what it may not.
pub data Put (value : Value) (st : Store) (i : ℕ) (item : Item)
    (result : Outcome (Option ℕ × Store)) : Type 0 where
  put :
      (item' : Item)
      → result ≡ ok (some i, save st i item')
      → SameLinks item' item
      → item'.value ≡ value
      → item'.type ≡ item.type
      → Put value st i item result
  running :
      result ≡ ok (none, st)
      → item.type ≡ code_item
      → item.inuse ≡ true
      → Put value st i item result
  overread :
      result ≡ undefined
      → item.type ≡ value_item
      → measure_tail item.value ≡ undefined
      → Put value st i item result
  double_free :
      result ≡ undefined
      → item.type ≡ code_item
      → free_bytecode item.bytecode_len item.bytecode ≡ undefined
      → Put value st i item result

pub measure_by_type :
    (t : ValueType) (p : Payload)
    → let v : Value = record { type = t; payload = p } in
      (measure_tail v ≡ undefined) ⊎ Returns (measure_tail v) (λ b. Unit {0})
measure_by_type int p = inr (false, refl, tt)
measure_by_type nil p = inr (false, refl, tt)
measure_by_type bool p = inr (false, refl, tt)
measure_by_type str (word w) = inl refl
measure_by_type str (text []) = inl refl
measure_by_type str (text (c ∷ s)) = inr (true, refl, tt)

pub free_bytecode-cases :
    (n : ℕ) (b : Option Bytes)
    → (free_bytecode n b ≡ undefined) ⊎ Returns (free_bytecode n b) (λ b'. Unit {0})
free_bytecode-cases zero b = inr (b, refl, tt)
free_bytecode-cases (suc n) none = inl refl
free_bytecode-cases (suc n) (some b) = inr (none, refl, tt)

put_by-Put :
    (t : ItemType) (value : Value) (st : Store) (i : ℕ) (item : Item)
    → item.type ≡ t
    → Put value st i item (put_by t value st i item)
put_by-Put value_item value st i item e =
    elim (measure_by_type item.value.type item.value.payload) [
      | inl u ↦ overread (rw u refl) e u
      | inr (b, q, _) ↦
          put (record item { value = value }) (rw q refl)
            (record { name = refl; parent = refl; table = refl; array = refl; capacity = refl })
            refl refl
    ]
put_by-Put code_item value st i item e = elim (Bool-cases item.inuse) [
  | inl busy ↦ running (rw busy refl) e busy
  | inr idle ↦ elim (free_bytecode-cases item.bytecode_len item.bytecode) [
    | inl u ↦ double_free (rw (idle, u) refl) e u
    | inr (b, q, _) ↦
        put (record item { value = value; bytecode = b }) (rw (idle, q) refl)
          (record { name = refl; parent = refl; table = refl; array = refl; capacity = refl }) refl
          refl
  ]
]

pub put_value-Put :
    (value : Value) (st : Store) (i : ℕ) (item : Item)
    → st.items i ≡ some item
    → Put value st i item (put_value value st i)
unfolding put_value load
put_value-Put value st i item e = rw e (put_by-Put item.type value st i item refl)

-- What `put_code` does at item `i`: the item becomes code, whether it is running or not, or the
-- old value or code is read or freed against the rules.
pub data Coded (bytecode : Bytes) (st : Store) (i : ℕ) (item : Item)
    (result : Outcome (Option ℕ × Store)) : Type 0 where
  coded :
      (item' : Item)
      → result ≡ ok (some i, save st i item')
      → SameLinks item' item
      → (item'.type ≡ code_item)
        × (item'.bytecode ≡ some bytecode)
        × (item'.bytecode_len ≡ length bytecode)
        × (item'.inuse ≡ item.inuse)
      → Coded bytecode st i item result
  stale :
      result ≡ undefined
      → (measure_by item.type item.value ≡ undefined)
        ⊎ (free_bytecode item.bytecode_len item.bytecode ≡ undefined)
      → Coded bytecode st i item result

measure_by-cases :
    (t : ItemType) (v : Value)
    → (measure_by t v ≡ undefined) ⊎ Returns (measure_by t v) (λ b. Unit {0})
measure_by-cases value_item v = measure_by_type v.type v.payload
measure_by-cases code_item v = inr (false, refl, tt)

pub put_code-Coded :
    (bytecode : Bytes) (st : Store) (i : ℕ) (item : Item)
    → st.items i ≡ some item
    → Coded bytecode st i item (put_code bytecode st i)
unfolding put_code load
put_code-Coded bytecode st i item e = elim (measure_by-cases item.type item.value) [
  | inl u ↦ stale (rw (e, u) refl) (inl u)
  | inr (b, q, _) ↦ elim (free_bytecode-cases item.bytecode_len item.bytecode) [
    | inl u ↦ stale (rw (e, q, u) refl) (inr u)
    | inr (old, q', _) ↦
        coded
          (record item {
            type = code_item;
            value = record (item.value) { type = nil };
            bytecode_len = length bytecode;
            bytecode = some bytecode;
          })
          (rw (e, q, q') refl)
          (record { name = refl; parent = refl; table = refl; array = refl; capacity = refl })
          (refl, refl, refl, refl)
  ]
]
