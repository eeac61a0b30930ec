-- ===== src/Exec/Keeps.antt =====
-- A property of the state that every step keeps, whether it returns or throws.
use libinv.Prelude.{◌≡◌, refl, Bool, true, false}
use libinv.Exception.{Exception}
use libinv.Exec.{Result, ok, err, Exec, pure, lift, bind, continue, unless_fails}

pub record Keeps {St R : Type 0} (Inv : St → Type 0) (act : Exec St R) : Type 0 where
  pub after : (st : St) → Inv st → Inv (act st).1

module _ {St R : Type 0} {Inv : St → Type 0} where
  pub Keeps-lift : (r : Result R) → Keeps Inv (lift r)
  Keeps-lift r = record { after = λ st inv. inv }

  pub Keeps-pure : (value : R) → Keeps Inv (pure value)
  Keeps-pure value = Keeps-lift (ok value)

module _ {St R Q : Type 0} {Inv : St → Type 0} where
  Keeps-continue :
      (r : Result R) (rest : R → Exec St Q)
      → ((value : R) → Keeps Inv (rest value))
      → Keeps Inv (continue r rest)
  Keeps-continue (ok value) rest all = all value
  Keeps-continue (err thrown) rest all = record { after = λ st inv. inv }

  pub Keeps-bind :
      (act : Exec St R) (rest : R → Exec St Q)
      → Keeps Inv act
      → ((value : R) → Keeps Inv (rest value))
      → Keeps Inv (bind act rest)
  Keeps-bind act rest kept all = record {
    after = λ st inv. (Keeps-continue (act st).0 rest all).after (act st).1 (kept.after st inv);
  }

pub unless_fails-state :
    {St : Type 0} (b : Bool) (e : Exception) (st : St) → (unless_fails b e st).1 ≡ st
unless_fails-state true e st = refl
unless_fails-state false e st = refl
