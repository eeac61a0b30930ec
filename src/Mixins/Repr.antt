-- ===== src/Mixins/Repr.antt =====
-- source/include/object.hh, the JSON form of an object: its id and type, its modes, and a member for
-- each mixin. A text is tested where the code tests it.
use libinv.Prelude.{
  Bool, List, ◌∷◌, ◌++◌, Bytes, codes, none, some, list_eqb, nat_ord, list_ord, is_some,
  if◌then◌else◌,
}
use libinv.Exception.{base, invalid_repr}
use libinv.Exec.{Result, ok, err, ◌>>=◌, Exec, pure, raise, lift, bind}
use libinv.Extern.Json.{Json}
use libinv.Modes.Repr.{modes_repr, modes_from_repr}
use libinv.Mixins.{Mixin, Parts, foreach_repr, foreach_from_repr}

module _ ⦃J : Json⦄ where
  unfoldable pub repr_has_id : J.Value → Bool
  repr_has_id v = is_some (J.find_member v (codes "id"))

  unfoldable pub id_from_repr : J.Value → Result Bytes
  id_from_repr v = elim (J.find_member v (codes "id")) [
    | none ↦ err (base invalid_repr (codes "repr lacks \"id\" member"))
    | some id ↦
        if J.is_text id
        then ok (J.get_text id)
        else err (base invalid_repr (codes "id is not a string"))
  ]

  -- The tests of from_repr on the type.
  unfoldable pub check_type : Bytes → J.Value → Result (Unit {0})
  check_type own v = elim (J.find_member v (codes "type")) [
    | none ↦ err (base invalid_repr (codes "repr lacks \"type\" member"))
    | some type ↦
        if J.is_text type
        then (if list_eqb (J.get_text type) own
            then ok tt
            else err (
                base invalid_repr (
                  codes "tried to initialize "
                  ++ (own ++ (codes " instance with " ++ (J.get_text type ++ codes " repr"))))))
        else err (base invalid_repr (codes "type is not a string"))
  ]

module _ ⦃J : Json⦄ {Obj Db : Type 0} (P : Parts Obj Db) (ms : List (Mixin Obj Db)) where
  -- repr(alloc, push_id)
  unfoldable pub repr : Bool → Obj → J.Value
  repr push_id o =
      let rest =
        (codes "type", J.text P.type)
        ∷ (codes "modes", modes_repr (P.modes o))
        ∷ foreach_repr ms o in
      J.object (if push_id then (codes "id", J.text (P.id o)) ∷ rest else rest)

  -- assign_id(id_from_repr(v)), where there is an id
  unfoldable pub id_step : J.Value → Exec Obj (Unit {0})
  unfolding repr_has_id id_from_repr
  id_step v o =
      if repr_has_id v
      then elim (id_from_repr v >>= λ id. P.assign_id id o) [
        | err e ↦ (err e, o)
        | ok o' ↦ (ok tt, o')
      ]
      else pure tt o

  -- modes_from_repr(jmodes->value), where there are modes
  unfoldable pub modes_step : J.Value → Exec Obj (Unit {0})
  modes_step v o = elim (J.find_member v (codes "modes")) [
    | none ↦ pure tt o
    | some jmodes ↦ let read = modes_from_repr jmodes (P.modes o) in (read.0, P.with_modes read.1 o)
  ]

  -- from_repr
  unfoldable pub from_repr : J.Value → Exec Obj (Unit {0})
  unfolding id_step check_type modes_step foreach_from_repr
  from_repr v =
      if J.is_object v
      then (bind (id_step v) λ _.
          bind (lift (check_type P.type v)) λ _. bind (modes_step v) λ _. foreach_from_repr ms v)
      else raise (base invalid_repr (codes "repr is not a JSON object"))
