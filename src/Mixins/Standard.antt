-- ===== src/Mixins/Standard.antt =====
-- The mixins Association and Container as an object has them: what Foreach calls of them, for a
-- call that is a notification or not. source/include/association.hh, container.hh.
use libinv.Prelude.{
  ◌≡◌, refl, ap, Bool, true, List, [], ◌∷◌, Bytes, codes, nat_ord, list_ord, Rising, Strictly,
}
use libinv.Exec.{pure}
use libinv.Extern.Boost.{Boost}
use libinv.Extern.Json.{Json}
use libinv.Extern.Kyoto.{Kyoto}
use libinv.Key.{index_separator}
use libinv.Key.Words.{Plain}
use libinv.Mixins.{Mixin, Parts, Impl}
use libinv.Mixins.RoundTrip.{Reads}
use libinv.Object.Component.{Component, IsPart, ident_of, load_part, commit_part}
use libinv.Association
use libinv.Association.{Association}
use libinv.Association.Repr as AssociationRepr
use libinv.Association.Reads as AssociationReads
use libinv.Association.Update as AssociationUpdate
use libinv.Container
use libinv.Container.{Container}
use libinv.Container.Repr as ContainerRepr
use libinv.Container.Reads as ContainerReads
use libinv.Container.Update as ContainerUpdate

module _ ⦃B : Boost⦄ ⦃J : Json⦄ ⦃K : Kyoto⦄ {Obj : Type 0} (P : Parts Obj K.Db)
    (notification : Bool) where
  module _ (C : Component Obj Association) where
    -- methods()
    unfoldable pub link_methods : List (Bytes × Impl Obj K.Db)
    link_methods = (codes "link.update", AssociationUpdate.rpc_update P C notification) ∷ []

    unfoldable pub associative : Mixin Obj K.Db
    unfolding link_methods
    associative = record {
      get = load_part P C (λ i d a. pure tt (Association.get i d a));
      commit = commit_part P C Association.commit;
      methods = link_methods;
      mixin_type = codes "associative";
      repr = λ o. AssociationRepr.repr (C.part o);
      from_repr = λ v o. let r = AssociationRepr.from_repr v (C.part o) in (r.0, C.with_part r.1 o);
      clear = λ o. C.with_part (Association.clear (C.part o)) o;
      modified = λ o. (C.part o).modified;
      db_backed = λ o. (C.part o).db_backed;
      set_modified = λ b o. C.with_part (Association.set_modified b (C.part o)) o;
      set_db_backed = λ b o. C.with_part (Association.set_db_backed b (C.part o)) o;
      on_commit = λ o. C.with_part (Association.on_commit (C.part o)) o;
      on_get = λ o. C.with_part (Association.on_get (C.part o)) o;
      build_update_request =
          λ uuid o. AssociationUpdate.build_update_request uuid (ident_of P o) (C.part o);
    }

  module _ (C : Component Obj Container) (message : Bytes) where
    unfoldable pub attribute_methods : List (Bytes × Impl Obj K.Db)
    attribute_methods =
        (codes "attribute.list", ContainerUpdate.rpc_attribute_list P C message notification)
        ∷ (codes "attribute.get", ContainerUpdate.rpc_attribute_get P C message notification)
        ∷ (codes "attribute.set", ContainerUpdate.rpc_attribute_set P C message notification)
        ∷ (codes "attribute.repr.get", ContainerUpdate.rpc_repr_get P C message)
        ∷ (codes "attribute.repr.set", ContainerUpdate.rpc_repr_set P C message notification)
        ∷ []

    unfoldable pub kv : Mixin Obj K.Db
    unfolding attribute_methods
    kv = record {
      get = load_part P C Container.get;
      commit = commit_part P C (Container.commit message);
      methods = attribute_methods;
      mixin_type = codes "kv";
      repr = λ o. ContainerRepr.repr (C.part o);
      from_repr = λ v o. let r = ContainerRepr.from_repr v (C.part o) in (r.0, C.with_part r.1 o);
      clear = λ o. C.with_part (Container.clear (C.part o)) o;
      modified = λ o. true;
      db_backed = λ o. (C.part o).db_backed;
      set_modified = λ b o. o;
      set_db_backed = λ b o. C.with_part (Container.set_db_backed b (C.part o)) o;
      on_commit = λ o. C.with_part (Container.on_commit (C.part o)) o;
      on_get = λ o. C.with_part (Container.on_get (C.part o)) o;
      build_update_request =
          λ uuid o. ContainerUpdate.build_update_request uuid (ident_of P o) (C.part o);
    }

module _ ⦃B : Boost⦄ ⦃J : Json⦄ where
  same_links :
      (a b : Association) → a.assoc ≡ b.assoc → AssociationRepr.repr a ≡ AssociationRepr.repr b
  unfolding AssociationRepr.repr
  same_links a b e = rw e

  same_attributes :
      (a b : Container) → a.attrs ≡ b.attrs → ContainerRepr.repr a ≡ ContainerRepr.repr b
  unfolding ContainerRepr.repr
  same_attributes a b e = rw e

module _ ⦃B : Boost⦄ ⦃J : Json⦄ ⦃K : Kyoto⦄ {Obj : Type 0} (P : Parts Obj K.Db) (n : Bool) where
  -- The links of an object are read back from their JSON form, where they are of words and sorted.
  pub associative-Reads :
      (C : Component Obj Association) (o : Obj)
      → IsPart P C
      → ((a : Association) (o' : Obj) → P.modes (C.with_part a o') ≡ P.modes o')
      → Plain index_separator (C.part o).assoc
      → Rising (C.part o).assoc
      → Reads P (associative P n C) o
  unfolding associative
  associative-Reads C o l m w s =
      let read = λ (o' : Obj). AssociationReads.from_repr-repr (C.part o) (C.part o') w s in
      record {
        returns = λ o'. ap (λ r. r.0) (read o');
        restores = λ o'.
            rw
              (
                l.part-with_part
                    (AssociationRepr.from_repr (AssociationRepr.repr (C.part o)) (C.part o')).1 o',
                ap (λ r. r.1) (read o'),
              )
              (same_links _ (C.part o) refl);
        keeps_id = λ o'. l.id-with_part _ o';
        keeps_modes = λ o'. m _ o';
      }

  -- The attributes of an object are read back from their JSON form, where they are sorted by name.
  pub kv-Reads :
      (C : Component Obj Container) (message : Bytes) (o : Obj)
      → IsPart P C
      → ((a : Container) (o' : Obj) → P.modes (C.with_part a o') ≡ P.modes o')
      → Strictly (C.part o).attrs
      → Reads P (kv P n C message) o
  unfolding kv
  kv-Reads C message o l m s =
      let read = λ (o' : Obj). ContainerReads.attributes-survive (C.part o) (C.part o') s in
      record {
        returns = λ o'. ap (λ r. r.0) (read o');
        restores = λ o'.
            rw
              (
                l.part-with_part
                    (ContainerRepr.from_repr (ContainerRepr.repr (C.part o)) (C.part o')).1 o',
                ap (λ r. r.1) (read o'),
              )
              (same_attributes _ (C.part o) refl);
        keeps_id = λ o'. l.id-with_part _ o';
        keeps_modes = λ o'. m _ o';
      }
