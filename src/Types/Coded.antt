-- ===== src/Types/Coded.antt =====
-- source/include/stdtypes.hh, GTIN and ISBN: an Object of StringIndexedObject, Association and
-- Container, put together from its parts. The locks are left out: each call is one step.
use libinv.Prelude.{Bool, true, List, [], ◌∷◌, Bytes, none, some}
use libinv.Exec.{ok, err, Exec}
use libinv.Extern.Boost.{Boost}
use libinv.Extern.Json.{Json}
use libinv.Extern.Kyoto.{Kyoto}
use libinv.Index.{Ident, StringIndex, assign_id, generated, generate_id}
use libinv.Index
use libinv.Modes.{Modes}
use libinv.Modes
use libinv.Association.{Association}
use libinv.Association
use libinv.Container.{Container}
use libinv.Container
use libinv.Mixins.{Mixin, Parts}
use libinv.Mixins.Standard.{associative, kv}
use libinv.Object.Component.{Component}

pub record Coded : Type 0 where
  pub index : StringIndex
  pub modes : Modes
  pub links : Association
  pub attributes : Container

-- An object just made, with the id that was drawn for it.
abbrev pub blank : Bytes → Coded
blank drawn = record {
  index = record { id = drawn; generated_id = true };
  modes = Modes.fresh;
  links = Association.fresh;
  attributes = Container.fresh;
}

-- assign_id
abbrev pub named : Bytes → Coded → Coded
named id o = record o { index = assign_id id o.index }

abbrev pub ident : Bytes → Coded → Ident
ident type o = record { type = type; id = o.index.id }

-- The type is that of the class, and the ids are those that rand() gives; `endless` is what the
-- search for an id comes to where none of them is free.
module _ ⦃B : Boost⦄ ⦃K : Kyoto⦄ (type : Bytes) (draws : List Bytes)
    (endless : Exec (Coded × K.Db) (Unit {0})) where
  abbrev pub coded_parts : Parts Coded K.Db
  coded_parts = record {
    type = type;
    id = λ o. o.index.id;
    assign_id = λ id o. ok (named id o);
    generate_id = λ s. elim (generate_id type draws s.1) [
      | none ↦ endless s
      | some (i, rest) ↦ (ok tt, (record s.0 { index = generated i.id s.0.index }, s.1))
    ];
    exists = λ o d. Index.exists (ident type o) d;
    commit_index = λ s. let r = Index.commit (ident type s.0) s.1 in (r.0, (s.0, r.1));
    remove_index = λ s. let r = Index.remove (ident type s.0) s.1 in (ok tt, (s.0, r.1));
    get_modes = λ s. elim (Modes.get_modes (ident type s.0) s.1 s.0.modes) [
      | err e ↦ (err e, s)
      | ok m ↦ (ok tt, (record s.0 { modes = m }, s.1))
    ];
    commit_modes = λ s.
        let r = Modes.commit_modes (ident type s.0) s.0.modes s.1 in
        (ok tt, (record s.0 { modes = r.0 }, r.1));
    modes = λ o. o.modes;
    with_modes = λ m o. record o { modes = m };
  }

abbrev pub links_of : Component Coded Association
links_of = record { part = λ o. o.links; with_part = λ a o. record o { links = a } }

abbrev pub attributes_of : Component Coded Container
attributes_of = record { part = λ o. o.attributes; with_part = λ c o. record o { attributes = c } }

module _ ⦃B : Boost⦄ ⦃J : Json⦄ ⦃K : Kyoto⦄ (P : Parts Coded K.Db) (message : Bytes)
    (notification : Bool) where
  -- The mixins of the object, for a call that is a notification or not.
  abbrev pub coded_mixins : List (Mixin Coded K.Db)
  coded_mixins = associative P notification links_of ∷ kv P notification attributes_of message ∷ []
