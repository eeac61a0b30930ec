-- ===== src/Rpc/Roster.antt =====
-- The tables of methods and of types: a look-up succeeds exactly where the name is there.
use libinv.Prelude.{◌≡◌, refl, Bool, true, false, List, [], ◌∷◌, Bytes, nat_ord, list_ord, arith}
use libinv.Exec.{Result, ok, err}
use libinv.Rpc.{rpc_method_get, rpc_method_exists, create, type_exists}

abbrev pub succeeds : {A : Type 0} → Result A → Bool
succeeds (ok a) = true
succeeds (err e) = false

module _ {A : Type 0} where
  method_agrees :
      (name : Bytes) (table : List (Bytes × A))
      → rpc_method_exists name table ≡ succeeds (rpc_method_get name table)
  unfolding rpc_method_get rpc_method_exists
  method_agrees name [] = refl
  method_agrees name ((m, impl) ∷ ms) = ground (arith, method_agrees name ms)

  type_agrees :
      (type : Bytes) (table : List (Bytes × A))
      → type_exists type table ≡ succeeds (create type table)
  unfolding create type_exists
  type_agrees type [] = refl
  type_agrees type ((t, a) ∷ []) = ground arith
  type_agrees type ((t, a) ∷ u ∷ us) = ground (arith, type_agrees type (u ∷ us))

  -- A method is got exactly where it exists, and a type is created exactly where it exists.
  pub lookups_agree :
      (name : Bytes) (table : List (Bytes × A))
      → (rpc_method_exists name table ≡ succeeds (rpc_method_get name table))
        × (type_exists name table ≡ succeeds (create name table))
  lookups_agree name table = (method_agrees name table, type_agrees name table)
