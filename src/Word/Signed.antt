-- ===== src/Word/Signed.antt =====
-- What the operations on bit patterns do to the signed numbers that they stand for.
use sin.Prelude.{ℕ, ◌+◌, ◌-◌, ◌*◌, ◌^◌, ◌<◌, ◌≤◌, ◌≡◌, arith}
use sin.Prelude.Int.{ℤ, pos, negsuc, ◌+ℤ◌, ◌-ℤ◌, ◌*ℤ◌, ◌≤ℤ◌, ltb_ℤ, leb_ℤ}
use sin.Word.{add64, sub64, mul64, lt64, le64, signed64}

abbrev pub FitsInt64 : ℤ → Type 0
FitsInt64 a = (negsuc (2 ^ 63 - 1) ≤ℤ a) × (a ≤ℤ pos (2 ^ 63 - 1))

module _ (a b : ℕ) (ha : a < 2 ^ 64) (hb : b < 2 ^ 64) where
  pub add64-signed64 :
      FitsInt64 (signed64 a +ℤ signed64 b) → signed64 (add64 a b) ≡ signed64 a +ℤ signed64 b
  unfolding add64 ◌+ℤ◌
  add64-signed64 h = ground arith

  pub sub64-signed64 :
      FitsInt64 (signed64 a -ℤ signed64 b) → signed64 (sub64 a b) ≡ signed64 a -ℤ signed64 b
  unfolding sub64 ◌-ℤ◌
  sub64-signed64 h = ground arith

  pub lt64-ltb_ℤ : lt64 a b ≡ ltb_ℤ (signed64 a) (signed64 b)
  unfolding lt64
  lt64-ltb_ℤ = ground arith

  pub le64-leb_ℤ : le64 a b ≡ leb_ℤ (signed64 a) (signed64 b)
  unfolding le64
  le64-leb_ℤ = ground arith

mul_complement : (a b m : ℕ) → a ≤ m → (m - a) * b + a * b ≡ m * b
mul_complement a b m h = grind arith

pub mul64-signed64 :
    (a b : ℕ)
    → a < 2 ^ 64
    → b < 2 ^ 64
    → FitsInt64 (signed64 a *ℤ signed64 b)
    → signed64 (mul64 a b) ≡ signed64 a *ℤ signed64 b
unfolding mul64 ◌*ℤ◌
mul64-signed64 a b ha hb h = ground (
  arith,
  mul_complement a b (2 ^ 64),
  mul_complement b a (2 ^ 64),
  mul_complement b (2 ^ 64 - a) (2 ^ 64),
)
