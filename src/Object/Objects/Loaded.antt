-- ===== src/Object/Objects/Loaded.antt =====
-- The objects that links and the hierarchy name, as the database gives them.
use libinv.Prelude.{
  ◌≡◌, refl, true, false, Bool, List, [], ◌∷◌, Bytes, map, list_eqb, nat_ord, list_ord,
  if◌then◌else◌, arith,
}
use libinv.Exec.{Exec, pure, bind}
use libinv.Extern.Json.{Json}
use libinv.Key.{at}
use libinv.Index.{Ident, path}
use libinv.Association.{Association}
use libinv.Hierarchical.{Hierarchical}
use libinv.Mixins.{Mixin, Parts}
use libinv.Object.Objects.{
  load_new, assoc_objects_each, assoc_objects_db, up_db, of_type, ids_of_type,
}

-- Each identity of the list is of the type.
abbrev AllOf : Bytes → List Ident → Type 0
AllOf type [] = Unit
AllOf type (j ∷ js) = (list_eqb j.type type ≡ true) × AllOf type js

AllOf-of_type : (type : Bytes) (js : List Ident) → AllOf type (of_type type js)
AllOf-of_type type [] = tt
AllOf-of_type type (j ∷ js) = added (list_eqb j.type type) refl (AllOf-of_type type js)
  where
    added :
        (b : Bool)
        → list_eqb j.type type ≡ b
        → AllOf type (of_type type js)
        → AllOf type (if b then j ∷ of_type type js else of_type type js)
    added true e rest = (e, rest)
    added false e rest = rest

module _ ⦃J : Json⦄ {Obj Db : Type 0} (P : Parts Obj Db) (ms : List (Mixin Obj Db))
    (new : Obj) where
  -- A new object for each identity, each with its get(db, id), up to the first that throws.
  abbrev pub load_all : List Ident → Exec Db (List Obj)
  load_all [] = pure []
  load_all (j ∷ js) = bind (load_new P ms new j.id) λ o. bind (load_all js) λ rest. pure (o ∷ rest)

  each_loaded :
      (type : Bytes) (js : List Ident) (d : Db)
      → AllOf type js
      → assoc_objects_each P ms new type (map path js) d ≡ load_all js d
  unfolding assoc_objects_each path at
  each_loaded type [] d t = refl
  each_loaded type (j ∷ js) d t =
      let rest = each_loaded type js (load_new P ms new j.id d).1 t.1 in ground (arith, t.0, rest)

  -- assoc_objects(db) loads, with get(db, id), a new object for exactly the linked identities of the
  -- type, in the order of the links; it returns all these objects, or throws what the first load that
  -- fails throws, and leaves the database as these loads do. Links of other types, also those whose
  -- ids the class has no use for, are not loaded. up(db) is the load of the identity above. The links
  -- and the place name identities.
  pub assoc_objects_db-of_type :
      (type : Bytes) (a : Association) (h : Hierarchical) (js : List Ident) (j : Ident) (d : Db)
      → a.assoc ≡ map path js
      → h.up_id ≡ path j
      → (assoc_objects_db P ms new type a d ≡ load_all (of_type type js) d)
        × (up_db P ms new h d ≡ load_new P ms new j.id d)
  unfolding assoc_objects_db up_db path at
  assoc_objects_db-of_type type a h js j d e u = (
    rw (e, ids_of_type type js) (each_loaded type (of_type type js) d (AllOf-of_type type js)),
    rw u refl,
  )
