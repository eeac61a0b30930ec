-- ===== src/Examples/Things.antt =====
-- An object with modes, links, attributes and a place in the hierarchy, in a concrete database.
use libinv.Prelude.{refl, [], Bytes, codes, nat_ord, list_ord}
use libinv.Exec.{ok, err, pure}
use libinv.Extern.Concrete.Tokenizer.{tokenizer}
use libinv.Extern.Concrete.TreeDb.{tree_db, empty_db}
use libinv.Extern.Concrete.Document.{document}
use libinv.Index.{Ident}
use libinv.Index
use libinv.Modes
use libinv.Modes.{Modes}
use libinv.Association
use libinv.Association.{Association}
use libinv.Container
use libinv.Container.{Container, assign}
use libinv.Hierarchical
use libinv.Hierarchical.{Hierarchical}
use libinv.Mixins.{Parts}
use libinv.Mixins.RoundTrip.{IsIndexed}
use libinv.Object.Component.{Component, IsPart}
use libinv.Examples.Data.{left}

pub record Thing : Type 0 where
  pub id : Bytes
  pub modes : Modes
  pub links : Association
  pub attributes : Container
  pub place : Hierarchical

abbrev pub blank : Thing
blank = record {
  id = [];
  modes = Modes.fresh;
  links = Association.fresh;
  attributes = Container.fresh;
  place = Hierarchical.fresh;
}

-- The thing whose id a call assigned.
abbrev pub named : Bytes → Thing → Thing
named id o = record o { id = id }

abbrev pub ident : Thing → Ident
ident o = record { type = codes "box"; id = o.id }

abbrev pub things : Parts Thing tree_db.Db
things = record {
  type = codes "box";
  id = λ o. o.id;
  assign_id = λ id o. ok (named id o);
  generate_id = pure tt;
  exists = λ o d. Index.exists (ident o) d;
  commit_index = λ s. let r = Index.commit (ident s.0) s.1 in (r.0, (s.0, r.1));
  remove_index = λ s. let r = Index.remove (ident s.0) s.1 in (ok tt, (s.0, r.1));
  get_modes = λ s. elim (Modes.get_modes (ident s.0) s.1 s.0.modes) [
    | err e ↦ (err e, s)
    | ok m ↦ (ok tt, (record s.0 { modes = m }, s.1))
  ];
  commit_modes = λ s.
      let r = Modes.commit_modes (ident s.0) s.0.modes s.1 in
      (ok tt, (record s.0 { modes = r.0 }, r.1));
  modes = λ o. o.modes;
  with_modes = λ m o. record o { modes = m };
}

abbrev pub thing_links : Component Thing Association
thing_links = record { part = λ o. o.links; with_part = λ a o. record o { links = a } }

abbrev pub thing_attributes : Component Thing Container
thing_attributes = record {
  part = λ o. o.attributes;
  with_part = λ c o. record o { attributes = c };
}

abbrev pub thing_place : Component Thing Hierarchical
thing_place = record { part = λ o. o.place; with_part = λ h o. record o { place = h } }

pub thing_links-IsPart : IsPart things thing_links
thing_links-IsPart = record {
  part-with_part = λ a o. refl;
  id-with_part = λ a o. refl;
  with_part-with_part = λ a b o. refl;
}

pub thing_attributes-IsPart : IsPart things thing_attributes
thing_attributes-IsPart = record {
  part-with_part = λ a o. refl;
  id-with_part = λ a o. refl;
  with_part-with_part = λ a b o. refl;
}

pub thing_place-IsPart : IsPart things thing_place
thing_place-IsPart = record {
  part-with_part = λ a o. refl;
  id-with_part = λ a o. refl;
  with_part-with_part = λ a b o. refl;
}

pub things-IsIndexed : IsIndexed things
things-IsIndexed = record {
  modes-with_modes = λ m o. refl;
  id-with_modes = λ m o. refl;
  assigned = λ o o'. named o.id o';
  assigns = λ o o'. refl;
  id-assigned = λ o o'. refl;
  modes-assigned = λ o o'. refl;
}

-- A database that holds the object on the left.
abbrev pub left_there : tree_db.Db
left_there = (Index.commit left empty_db).1
