-- ===== src/Prelude/Faults.antt =====
-- How a call of the program may end: with its value, or in one of the ways that end the process.
use mathlib.Core.Path.{◌≡◌, refl}
use mathlib.Core.Logic.{◌⊎◌, inl, inr}

-- `out_of_range`, `length_error`: exceptions of std::string, which nothing in the program catches.
-- `null_pointer`, `over_read`, `over_write`: a member call on a null pointer, and a read and a
-- write behind a buffer's end. `pending`: the environment gave no further result, so the call has
-- not returned.
pub data Fault : Type 0 where
  out_of_range length_error null_pointer over_read over_write pending : Fault

pub data Outcome {ℓ} (A : Type ℓ) : Type ℓ where
  done : A → Outcome A
  fault : Fault → Outcome A

infixl 5 ◌>>=◌
abbrev pub ◌>>=◌ {ℓ κ} : {A : Type ℓ} {B : Type κ} → Outcome A → (A → Outcome B) → Outcome B
done a >>= f = f a
fault e >>= f = fault e

pub done-injective {ℓ} : {A : Type ℓ} {a b : A} → done a ≡ done b → a ≡ b
done-injective h = cc

pub Outcome-cases {ℓ} :
    {A : Type ℓ} (o : Outcome A) → ((a : A) × (o ≡ done a)) ⊎ ((f : Fault) × (o ≡ fault f))
Outcome-cases (done a) = inl (a, refl)
Outcome-cases (fault f) = inr (f, refl)

-- A chain that ends with a value has a value in the middle.
pub bind_done {ℓ κ} :
    {A : Type ℓ} {B : Type κ} (o : Outcome A) (f : A → Outcome B) {b : B}
    → (o >>= f) ≡ done b
    → (a : A) × (o ≡ done a) × (f a ≡ done b)
bind_done (done a) f h = (a, refl, h)
bind_done (fault e) f h = absurd cc
