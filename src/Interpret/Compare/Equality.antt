-- ===== src/Interpret/Compare/Equality.antt =====
-- `op_equal` and `op_notequal` (src/interpret.c) against equality of values.
use sin.Interpret.Binary.{binary-Holds}
use sin.Interpret.Compare.{equal_by, not_equal_by, op_equal, op_notequal}
use sin.Outcome.{ok, Returns}
use sin.Prelude.{
  ℕ, ◌≡◌, ◌≢◌, ◌↔◌, refl, ap, Bool, true, false, not, List, ◌∷◌, ◌==◌, if◌then◌else◌, arith, Bytes,
  str_eq, str_eq_refl, str_eq→eq, ◌&&◌,
}
use sin.Stack.Contents.{Registers, Holds}
use sin.Stack.{Stack}
use sin.Value.{
  ValueType, int, str, nil, bool, Payload, word, text, Value, bool_value, PayloadFits, IsTagged,
  is_nil,
}

abbrev value : ValueType → Payload → Value
value t p = record { type = t; payload = p }

-- What equality of two tagged values comes to: a test, true on the same value unless it is nil.
abbrev pub Decides : Bool → Value → Value → Type 0
Decides b v1 v2 = (b ≡ true) ↔ ((v1 ≡ v2) × (v1.type ≢ nil))

abbrev Compares : Value → Value → Type 0
Compares v1 v2 =
    (b : Bool) × (equal_by v1.type v2.type v1 v2 ≡ ok b)
    × Decides b v1 v2
    × (not_equal_by v1.type v2.type v1 v2
        ≡ ok (if is_nil v1.type && is_nil v2.type then false else not b))

same_words :
    (t : ValueType) (w1 w2 : ℕ)
    → t ≢ nil
    → Decides (w1 == w2) (value t (word w1)) (value t (word w2))
same_words t w1 w2 h = (λ e. (ground arith, h), λ (e, n). ground arith)

same_texts : (s1 s2 : Bytes) → Decides (str_eq s1 s2) (value str (text s1)) (value str (text s2))
same_texts s1 s2 = (
  λ e. (ap (λ s. value str (text s)) (str_eq→eq s1 s2 e), cc),
  λ (e, n). (let e' : s1 ≡ s2 = cc in rw e' (str_eq_refl s2)),
)

differ : (t1 t2 : ValueType) (p1 p2 : Payload) → t1 ≢ t2 → Decides false (value t1 p1) (value t2 p2)
differ t1 t2 p1 p2 h = (λ e. cc, λ (e, n). absurd (h (ap (λ v. v.type) e)))

both_nil : (p1 p2 : Payload) → Decides false (value nil p1) (value nil p2)
both_nil p1 p2 = (λ e. cc, λ (e, n). absurd (n refl))

compares :
    (t1 : ValueType) (p1 : Payload) (t2 : ValueType) (p2 : Payload)
    → PayloadFits t1 p1
    → PayloadFits t2 p2
    → Compares (value t1 p1) (value t2 p2)
compares int (text s) t2 p2 h1 h2 = elim h1 [ ]
compares bool (text s) t2 p2 h1 h2 = elim h1 [ ]
compares str (word w) t2 p2 h1 h2 = elim h1 [ ]
compares int (word w1) int (text s) h1 h2 = elim h2 [ ]
compares bool (word w1) bool (text s) h1 h2 = elim h2 [ ]
compares str (text s) str (word w) h1 h2 = elim h2 [ ]
compares int (word w1) int (word w2) h1 h2 = (_, refl, same_words int w1 w2 (cc), refl)
compares bool (word w1) bool (word w2) h1 h2 = (_, refl, same_words bool w1 w2 (cc), refl)
compares str (text s1) str (text s2) h1 h2 = (_, refl, same_texts s1 s2, refl)
compares nil p1 nil p2 h1 h2 = (false, refl, both_nil p1 p2, refl)
compares t1 p1 t2 p2 h1 h2 = (false, refl, differ t1 t2 p1 p2 (cc), refl)

-- On two tagged values `op_equal` pushes a test of equality that is false on nil, and
-- `op_notequal` the opposite, but false on two nils.
pub op_equal-Decides :
    {r : Registers} (v1 v2 : Value) (xs : List Value) {s : Stack}
    → Holds r (v1 ∷ v2 ∷ xs) s
    → IsTagged v1
    → IsTagged v2
    → (b : Bool) × Decides b v1 v2
      × Returns (op_equal s) (Holds r (bool_value b ∷ xs))
      × Returns
          (op_notequal s)
          (Holds r (bool_value (if is_nil v1.type && is_nil v2.type then false else not b) ∷ xs))
unfolding op_equal op_notequal
op_equal-Decides v1 v2 xs h h1 h2 =
    let (b, e, d, ne) = compares v1.type v1.payload v2.type v2.payload h1 h2 in
    (
      b,
      d,
      binary-Holds _ v1 v2 (bool_value b) xs (rw e refl) h,
      binary-Holds _ v1 v2 _ xs (rw ne refl) h,
    )
