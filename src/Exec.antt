-- ===== src/Exec.antt =====
-- Code that may throw: a value or an exception; and code that also writes a state, which keeps
-- what was written before the throw.
pub mod Keeps
use libinv.Prelude.{◌≡◌, refl, Bool, true, false, ◌⊎◌, inl, inr}
use libinv.Exception.{Exception}

pub data Result {ℓ} (A : Type ℓ) : Type ℓ where
  ok : A → Result A
  err : Exception → Result A

infixl 5 ◌>>=◌
abbrev pub ◌>>=◌ {ℓ κ} : {A : Type ℓ} {B : Type κ} → Result A → (A → Result B) → Result B
ok a >>= f = f a
err e >>= f = err e

abbrev pub check : Bool → Exception → Result (Unit {0})
check true e = ok tt
check false e = err e

pub Result-cases :
    {A : Type 0} (r : Result A) → ((a : A) × (r ≡ ok a)) ⊎ ((e : Exception) × (r ≡ err e))
Result-cases (ok a) = inl (a, refl)
Result-cases (err e) = inr (e, refl)

abbrev pub Exec : Type 0 → Type 0 → Type 0
Exec State A = State → Result A × State

module _ {State A : Type 0} where
  abbrev pub lift : Result A → Exec State A
  lift result state = (result, state)

  abbrev pub pure : A → Exec State A
  pure value = lift (ok value)

  abbrev pub raise : Exception → Exec State A
  raise thrown = lift (err thrown)

module _ {State A B : Type 0} where
  abbrev pub continue : Result A → (A → Exec State B) → Exec State B
  continue (err thrown) rest state = (err thrown, state)
  continue (ok value) rest state = rest value state

  -- m, then f with its result, unless m throws
  abbrev pub bind : Exec State A → (A → Exec State B) → Exec State B
  bind m rest state = let after = m state in continue after.0 rest after.1

abbrev pub unless_fails : {State : Type 0} → Bool → Exception → Exec State (Unit {0})
unless_fails true thrown = pure tt
unless_fails false thrown = raise thrown
