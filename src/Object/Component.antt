-- ===== src/Object/Component.antt =====
-- What the RPC methods of the mixins have in common: a mixin is a part of the object that it
-- belongs to, and its methods begin with the object's guard.
use libinv.Prelude.{
  ◌≡◌, ◌∙◌, Bool, true, List, ◌∷◌, Bytes, ℕ, codes, some, lookup, nat_ord, list_ord, if◌then◌else◌,
  arith, inl, inr,
}
use libinv.Exec.{Result-cases, ok, err, ◌>>=◌, Exec, bind, pure}
use libinv.Extern.Json.{Json}
use libinv.Index.{Ident}
use libinv.Rpc.{param_id, param}
use libinv.Mixins.{Mixin, Parts}
use libinv.Object.{guard, rpc_get_index}

-- The mixin A of an object.
pub record Component (Obj A : Type 0) : Type 0 where
  pub part : Obj → A
  pub with_part : A → Obj → Obj

module _ {Obj Db : Type 0} (P : Parts Obj Db) where
  unfoldable pub ident_of : Obj → Ident
  ident_of o = record { type = P.type; id = P.id o }

  module _ {A : Type 0} (C : Component Obj A) where
    -- A member function of the mixin that does not take the database.
    unfoldable pub on_part : {R : Type 0} → Exec A R → Exec (Obj × Db) R
    on_part act (o, d) = let r = act (C.part o) in (r.0, (C.with_part r.1 o, d))

    -- get(db)
    unfoldable pub load_part : (Ident → Db → Exec A (Unit {0})) → Exec (Obj × Db) (Unit {0})
    unfolding ident_of
    load_part get (o, d) = let r = get (ident_of o) d (C.part o) in (r.0, (C.with_part r.1 o, d))

    -- commit(db); the mixin is as it was where commit throws
    unfoldable pub commit_part : (Ident → A → Exec Db A) → Exec (Obj × Db) (Unit {0})
    unfolding ident_of
    commit_part commit (o, d) =
        let r = commit (ident_of o) (C.part o) d in
        elim r.0 [ err e ↦ (err e, (o, r.1)) | ok a ↦ (ok tt, (C.with_part a o, r.1)) ]

    -- What is written to the mixin is read from it, and changes the object in nothing else.
    pub record IsPart : Type 0 where
      pub part-with_part : (a : A) (o : Obj) → C.part (C.with_part a o) ≡ a
      pub id-with_part : (a : A) (o : Obj) → P.id (C.with_part a o) ≡ P.id o
      pub with_part-with_part :
          (a b : A) (o : Obj) → C.with_part a (C.with_part b o) ≡ C.with_part a o

module _ {Obj Db A R : Type 0} (P : Parts Obj Db) (C : Component Obj A) where
  -- The end of a method that changes the mixin: the commit of what was written to it.
  pub commit_part-commits :
      (commit : Ident → A → Exec Db A) (answer : R) (a : A) (id : Bytes) (o : Obj) (d : Db)
      → IsPart P C
      → P.id o ≡ id
      → let i : Ident = record { type = P.type; id = id } in
        let done = bind (commit_part P C commit) (λ _. pure answer) (C.with_part a o, d) in
        (done.1.1 ≡ (commit i a d).1) × (done.0 ≡ ((commit i a d).0 >>= λ _. ok answer))
  unfolding commit_part ident_of
  commit_part-commits commit answer a id o d l e =
      let x = l.part-with_part a o in
      let y = l.id-with_part a o ∙ e in
      elim (Result-cases (commit (record { type = P.type; id = id }) a d).0) [
        | inl (b, r) ↦ (ground (arith, x, y), ground (arith, x, y))
        | inr (b, r) ↦ (ground (arith, x, y), ground (arith, x, y))
      ]

module _ ⦃J : Json⦄ where
  -- `if (call.jsonrpc()->is_notification()) return Value(kNullType); return Value("OK");`
  unfoldable pub acknowledged : Bool → J.Value
  acknowledged notification = if notification then J.null else J.text (codes "OK")

module _ ⦃J : Json⦄ where
  pub param-object :
      (ps : List (Bytes × J.Value)) (name : Bytes) (v : J.Value)
      → lookup name ps ≡ some v
      → param (J.object ps) name ≡ ok v
  unfolding param
  param-object ps name v h = ground (arith, J.find_member-object ps name)

module _ ⦃J : Json⦄ {Obj Db : Type 0} (P : Parts Obj Db) (ms : List (Mixin Obj Db)) where
  -- The guard of a call for an object that is there.
  pub guard-passed :
      (ps : List (Bytes × J.Value)) (c : ℕ) (id : Bytes) (o o' : Obj) (d : Db)
      → lookup (codes "id") ps ≡ some (J.text (c ∷ id))
      → P.assign_id (c ∷ id) o ≡ ok o'
      → P.exists o' d ≡ true
      → guard P ms (J.object ps) (o, d) ≡ (ok tt, (o', d))
  unfolding guard rpc_get_index param_id
  guard-passed ps c id o o' d h a e = ground (
    arith,
    J.find_member-object ps (codes "id"),
    J.is_text-text (c ∷ id),
    J.get_text-text (c ∷ id),
  )
