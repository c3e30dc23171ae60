-- ===== src/Prelude/Outcome.antt =====
-- The `std::variant<T, Error>` that the fallible operations of the source return.
use mathlib.Core.Path.{◌≡◌, refl}
use mathlib.Core.Logic.{◌⊎◌, inl, inr}
use mathlib.Core.Bool.{Bool, true, false}

pub data Outcome {ℓ κ} (E : Type ℓ) (A : Type κ) : Type (ℓ ⊔ κ) where
  err : E → Outcome E A
  ok : A → Outcome E A

-- `if (test) return error;`
abbrev pub reject {ℓ} : {E : Type ℓ} → Bool → E → Outcome E (Unit {0})
reject false failure = ok tt
reject true failure = err failure

infixl 5 ◌>>=◌ ◌>>◌
abbrev pub ◌>>=◌ {ℓ κ κ'} :
    {E : Type ℓ} {A : Type κ} {B : Type κ'} → Outcome E A → (A → Outcome E B) → Outcome E B
err failure >>= next = err failure
ok result >>= next = next result

abbrev pub ◌>>◌ {ℓ κ} : {E : Type ℓ} {B : Type κ} → Outcome E (Unit {0}) → Outcome E B → Outcome E B
first >> rest = first >>= λ finished. rest

pub Outcome-cases {ℓ κ} :
    {E : Type ℓ} {A : Type κ} (r : Outcome E A) → ((a : A) × (r ≡ ok a)) ⊎ ((e : E) × (r ≡ err e))
Outcome-cases (err failure) = inr (failure, refl)
Outcome-cases (ok result) = inl (result, refl)

-- A chain that ends well ran its first part well.
pub steps_of_ok {ℓ κ κ'} :
    {E : Type ℓ} {A : Type κ} {B : Type κ'} (first : Outcome E A) (next : A → Outcome E B) {b : B}
    → (first >>= next) ≡ ok b
    → (a : A) × (first ≡ ok a) × (next a ≡ ok b)
steps_of_ok (err failure) next ends = cc
steps_of_ok (ok result) next ends = (result, refl, ends)
