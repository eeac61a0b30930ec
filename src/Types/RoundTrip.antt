-- ===== src/Types/RoundTrip.antt =====
-- An object that is committed and then loaded by another one of its id.
use libinv.Prelude.{
  ◌≡◌, true, false, Bool, List, [], Bytes, none, some, is_some, contains, lookup, nat_ord, list_ord,
  if◌then◌else◌, arith, inl, inr, Option-cases,
}
use libinv.Exec.{Result-cases, ok, Exec}
use libinv.Extern.Boost.{Boost}
use libinv.Extern.Json.{Json}
use libinv.Extern.Kyoto.{Kyoto, IsReliable}
use libinv.Index.{Ident, path}
use libinv.Index
use libinv.Index.Identity.{IsClean, is_empty}
use libinv.Stored.{WellKeyed}
use libinv.Mode
use libinv.Mode.Rights.{from_string-string}
use libinv.Modes.{Modes, mode_string, get_modes}
use libinv.Modes
use libinv.Modes.Repr.{NineBits}
use libinv.Modes.Get.{get_modes-lookup}
use libinv.Association.{Association}
use libinv.Association
use libinv.Association.Links.{link_record}
use libinv.Container.{Container, attribute_string}
use libinv.Container
use libinv.Container.Get.{get-lookup}
use libinv.Mixins.{foreach_commit, foreach_get}
use libinv.Mixins.Standard.{associative, kv}
use libinv.Object.Component.{commit_part, load_part, ident_of}
use libinv.Object
use libinv.Types.Coded.{Coded, blank, named, ident, coded_parts, coded_mixins}
use libinv.Types.Indexed.{written-exists}
use libinv.Types.Stages.{
  Prepared, moded, linked, written, written-WellKeyed, written-links, written-attribute,
  written-mode, NineBits-lookup,
}

module _ ⦃B : Boost⦄ ⦃K : Kyoto⦄ where
  -- What is read of a mode that was written as its text.
  mode_read :
      (i : Ident) (m : Modes) (g : Bytes) (m' : Modes) (e d : K.Db)
      → NineBits m.add_modes
      → lookup g m'.modes
        ≡ elim (K.find e (mode_string i g)) [ none ↦ none | some v ↦ some (Mode.from_string v 0) ]
      → K.find e (mode_string i g) ≡ elim (lookup g m.add_modes) [
        | some v ↦ some (Mode.string v)
        | none ↦ if is_some (lookup g m.remove_modes) then none else K.find d (mode_string i g)
      ]
      → lookup g m'.modes ≡ elim (lookup g m.add_modes) [
        | some v ↦ some v
        | none ↦
            if is_some (lookup g m.remove_modes) then none else elim (K.find d (mode_string i g)) [
              | none ↦ none
              | some v ↦ some (Mode.from_string v 0)
            ]
      ]
  mode_read i m g m' e d b read mode = elim (Option-cases (lookup g m.add_modes)) [
    | inl x ↦ ground (arith, x, read, mode)
    | inr (v, x) ↦
        ground (arith, x, read, mode, from_string-string v (NineBits-lookup g v m.add_modes b x))
  ]

module _ ⦃B : Boost⦄ ⦃J : Json⦄ ⦃K : Kyoto⦄ (type : Bytes) (draws : List Bytes)
    (endless : Exec (Coded × K.Db) (Unit {0})) (message : Bytes) (n : Bool) where
  -- A commit that returns has run the commits of all its parts, in their order.
  commit-runs :
      (o : Coded) (d : K.Db)
      → IsReliable K
      → (Object.commit
          (coded_parts type draws endless)
          (coded_mixins (coded_parts type draws endless) message n)
          (o, d)).0
        ≡ ok tt
      → let i = ident type o in
        (a : Association) × (c : Container) × ((Association.commit i o.links (moded i o.modes d)).0
          ≡ ok a)
        × ((Container.commit message i o.attributes (linked i o.modes o.links d)).0 ≡ ok c)
        × ((Object.commit
              (coded_parts type draws endless)
              (coded_mixins (coded_parts type draws endless) message n)
              (o, d)).1.1
            ≡ written message i o.modes o.links o.attributes d)
  unfolding Object.commit foreach_commit associative kv commit_part ident_of Index.commit
  commit-runs o d r h =
      let i = ident type o in
      let set = r.set_succeeds d (Index.path_string i) [] in
      elim (Result-cases (Association.commit i o.links (moded i o.modes d)).0) [
        | inr (e, x) ↦ absurd (ground (arith, set, x, h))
        | inl (a, x) ↦
            elim (Result-cases
              (Container.commit message i o.attributes (linked i o.modes o.links d)).0) [
                | inr (e, y) ↦ absurd (ground (arith, set, x, y, h))
                | inl (c, y) ↦ (a, c, x, y, ground (arith, set, x, y))
              ]
      ]

  -- And it returns where they return.
  pub commit_returns :
      (o : Coded) (d : K.Db) (a : Association) (c : Container)
      → IsReliable K
      → let i = ident type o in
        (Association.commit i o.links (moded i o.modes d)).0 ≡ ok a
        → (Container.commit message i o.attributes (linked i o.modes o.links d)).0 ≡ ok c
        → (Object.commit
            (coded_parts type draws endless)
            (coded_mixins (coded_parts type draws endless) message n)
            (o, d)).0
          ≡ ok tt
  unfolding Object.commit foreach_commit associative kv commit_part ident_of Index.commit
  commit_returns o d a c r x y =
      let set = r.set_succeeds d (Index.path_string (ident type o)) [] in ground (arith, set, x, y)

  -- What a fresh object of the id reads, part by part.
  get-runs :
      (drawn id : Bytes) (d : K.Db) (m : Modes)
      → let i : Ident = record { type = type; id = id } in
        get_modes i d Modes.fresh ≡ ok m
        → (Container.get i d Container.fresh).0 ≡ ok tt
        → let P = coded_parts type draws endless in
          let got = Object.get P (coded_mixins P message n) (named id (blank drawn), d) in
          (got.0 ≡ ok tt)
          × (got.1.0.links ≡ Association.get i d Association.fresh)
          × (got.1.0.attributes ≡ (Container.get i d Container.fresh).1)
          × (got.1.0.modes ≡ m)
          × (got.1.0.index ≡ record { id = id; generated_id = false })
  unfolding Object.get foreach_get associative kv load_part ident_of Index.assign_id
  get-runs drawn id d m e g = (
    ground (arith, e, g),
    ground (arith, e, g),
    ground (arith, e, g),
    ground (arith, e, g),
    ground (arith, e, g),
  )

  -- An object of the class is committed and then loaded by a fresh one of its id: after the commit
  -- the object exists in the database; the load returns, with the id, which does not count as
  -- generated, and with exactly the links, attributes and modes that were to be written, and of the
  -- others those that were in the database and were not to be removed. No part disturbs another.
  -- Where the commit returned, on a database that meets no error and whose keys are of the known
  -- forms; what is committed is prepared: its keys are clean, its names hold no separator, its maps
  -- are sorted, and its modes are nine bits.
  pub get-commit_coded :
      (drawn : Bytes) (o : Coded) (rs ps : List Ident) (d : K.Db) (j : Ident) (h g : Bytes)
      → IsReliable K
      → WellKeyed d
      → Prepared (ident type o) o.modes o.links o.attributes rs ps
      → IsClean j
      → is_empty h ≡ false
      → is_empty g ≡ false
      → (Object.commit
          (coded_parts type draws endless)
          (coded_mixins (coded_parts type draws endless) message n)
          (o, d)).0
        ≡ ok tt
      → let P = coded_parts type draws endless in
        let ms = coded_mixins P message n in
        let i = ident type o in
        let loaded =
          Object.get P ms (named o.index.id (blank drawn), (Object.commit P ms (o, d)).1.1) in
        (Index.exists i (Object.commit P ms (o, d)).1.1 ≡ true)
        × (loaded.0 ≡ ok tt)
        × (loaded.1.0.index ≡ record { id = o.index.id; generated_id = false })
        × (contains (path j) loaded.1.0.links.assoc ≡ (
            if contains (path j) o.links.add
            then true
            else if contains (path j) o.links.remove
            then false
            else is_some (K.find d (link_record i j))))
        × (lookup h loaded.1.0.attributes.attrs ≡ elim (lookup h o.attributes.attrs) [
          | some v ↦ some v
          | none ↦ if contains h o.attributes.delete then none else K.find d (attribute_string i h)
        ])
        × (lookup g loaded.1.0.modes.modes ≡ elim (lookup g o.modes.add_modes) [
          | some v ↦ some v
          | none ↦
              if is_some (lookup g o.modes.remove_modes)
              then none
              else elim (K.find d (mode_string i g)) [
                | none ↦ none
                | some v ↦ some (Mode.from_string v 0)
              ]
        ])
  unfolding lookup
  get-commit_coded drawn o rs ps d j h g r w p hj eh eg done =
      let i = ident type o in
      let (a, c, linking, writing, state) = commit-runs o d r done in
      let e = written message i o.modes o.links o.attributes d in
      let we = written-WellKeyed message i o.modes o.links o.attributes rs ps p d w in
      let (m, modes, added, removed, all) = get_modes-lookup i e Modes.fresh p.clean we in
      let attributes = get-lookup i h e Container.fresh p.clean eh we in
      let run = get-runs drawn o.index.id e m modes attributes.0 in
      let link = written-links message i o.modes o.links o.attributes rs ps p d w j a hj linking in
      let attribute =
        written-attribute message i o.modes o.links o.attributes rs ps p d w h c writing in
      let mode = written-mode message i o.modes o.links o.attributes rs ps p d w g r in
      rw state (
        written-exists message i o.modes o.links a o.attributes rs ps d r p linking,
        run.0,
        run.4,
        rw run.1 link,
        rw run.2 (ground (arith, attributes.1, attribute)),
        rw run.3 (mode_read i o.modes g m e d p.nine_bits (all g eg) mode),
      )
