-- ===== src/Outcome.antt =====
-- What a call can do: return, raise SIGUSR1 (whose handler jumps back to `main` and never
-- returns), or do what C does not define, such as an access outside an array.
use sin.Prelude.{◌≡◌, refl, Option, none, some}

pub data Outcome {ℓ} (A : Type ℓ) : Type ℓ where
  ok : A → Outcome A
  raised : Outcome A
  undefined : Outcome A

infixl 5 ◌>>=◌
abbrev pub ◌>>=◌ {ℓ κ} : {A : Type ℓ} {B : Type κ} → Outcome A → (A → Outcome B) → Outcome B
ok a >>= f = f a
raised >>= f = raised
undefined >>= f = undefined

-- The call returns, and the result satisfies `P`.
abbrev pub Returns {ℓ κ} : {A : Type ℓ} → Outcome A → (A → Type κ) → Type (ℓ ⊔ κ)
Returns {A = A} m P = (a : A) × (m ≡ ok a) × P a

-- A read through a pointer or an index that may be invalid.
abbrev pub from_option {ℓ} : {A : Type ℓ} → Option A → Outcome A
from_option none = undefined
from_option (some a) = ok a

pub Returns-bind {ℓ κ μ ν} :
    {A : Type ℓ} {B : Type κ} {P : A → Type μ} {Q : B → Type ν} {m : Outcome A} {f : A → Outcome B}
    → Returns m P
    → ((a : A) → P a → Returns (f a) Q)
    → Returns (m >>= f) Q
Returns-bind {f = f} (a, e, p) k = let (b, e', q) = k a p in (b, rw e e', q)

pub Returns-map {ℓ κ μ} :
    {A : Type ℓ} {P : A → Type κ} {Q : A → Type μ} {m : Outcome A}
    → Returns m P
    → ((a : A) → P a → Q a)
    → Returns m Q
Returns-map (a, e, p) k = (a, e, k a p)

-- A chain that returns has a first call that returns.
pub Returns-of_bind {ℓ κ} :
    {A : Type ℓ} {B : Type κ} (first : Outcome A) (next : A → Outcome B) {end : B}
    → (first >>= next) ≡ ok end
    → Returns first (λ a. next a ≡ ok end)
Returns-of_bind (ok a) next h = (a, refl, h)
Returns-of_bind raised next h = cc
Returns-of_bind undefined next h = cc
