-- ===== src/Association/Update.antt =====
-- source/include/association.hh: the update that a client sends for the links of an object, and
-- the method link.update by which the server applies it.
use libinv.Prelude.{
  ℕ, ◌≡◌, refl, ◌∙◌, Bool, true, List, [], ◌∷◌, ◌++◌, Bytes, codes, Option, none, some, lookup,
  nat_ord, list_ord, list_eqb, if◌then◌else◌, Rising, Apart, erase_all-Apart, arith,
}
use libinv.Exec.{Result, ok, ◌>>=◌, Exec, pure, lift, bind}
use libinv.Extern.Boost.{Boost}
use libinv.Extern.Json.{Json}
use libinv.Extern.Kyoto.{Kyoto}
use libinv.Key.{index_separator}
use libinv.Key.Words.{Plain}
use libinv.Index.{Ident}
use libinv.Rpc.{param}
use libinv.JsonRpc.Request.{addressed, add_param, request, addressed-request, add_param-request}
use libinv.Mixins.{Parts}
use libinv.Object.{guard}
use libinv.Object.Component.{
  Component, on_part, commit_part, acknowledged, IsPart, guard-passed, param-object, ident_of,
  commit_part-commits,
}
use libinv.Association.{Association, fresh, commit}
use libinv.Association.Repr.{key_values, assoc_remove_batch, assoc_set_batch}
use libinv.Association.Reads.{
  queued, assoc_remove_batch-array, assoc_set_batch-array, associate_all, disassociate_all,
}

module _ ⦃B : Boost⦄ ⦃J : Json⦄ where
  -- build_update_request, with what uuid_string() gives; nullptr is `none`
  unfoldable pub build_update_request : Bytes → Ident → Association → Result (Option J.Value)
  build_update_request uuid i a =
      if a.modified
      then (do
        named ← addressed (i.id ++ (codes ":" ++ uuid)) (codes "object.link.update") i.id i.type
        adds ← add_param (codes "add") (J.array (key_values a.add)) named
        removes ← add_param (codes "remove") (J.array (key_values a.remove)) adds
        ok (some removes))
      else ok none

  -- The parameters of the update.
  abbrev pub update_params : Ident → Association → List (Bytes × J.Value)
  update_params i a =
      (codes "id", J.text i.id)
      ∷ (codes "type", J.text i.type)
      ∷ (codes "add", J.array (key_values a.add))
      ∷ (codes "remove", J.array (key_values a.remove))
      ∷ []

  pub build_update_request-params :
      (uuid : Bytes) (i : Ident) (a : Association)
      → a.modified ≡ true
      → build_update_request uuid i a
        ≡ ok (
            some (
              request
                (i.id ++ (codes ":" ++ uuid))
                (codes "object.link.update")
                (update_params i a)))
  unfolding build_update_request
  build_update_request-params uuid i a h =
      let sid = i.id ++ (codes ":" ++ uuid) in
      let method = codes "object.link.update" in
      let ps : List (Bytes × J.Value) =
        (codes "id", J.text i.id) ∷ (codes "type", J.text i.type) ∷ [] in
      rw (
        h,
        addressed-request sid method i.id i.type,
        add_param-request sid method (codes "add") (J.array (key_values a.add)) ps,
        add_param-request sid method (codes "remove") (J.array (key_values a.remove))
            (ps ++ (codes "add", J.array (key_values a.add)) ∷ []),
      )

module _ ⦃B : Boost⦄ ⦃J : Json⦄ ⦃K : Kyoto⦄ {Obj : Type 0} (P : Parts Obj K.Db)
    (C : Component Obj Association) where
  -- rpc_update, of a call with these parameters that is a notification or not
  unfoldable pub rpc_update : Bool → J.Value → Exec (Obj × K.Db) J.Value
  unfolding on_part commit_part acknowledged
  rpc_update notification params = bind (guard P [] params) λ _.
      bind (lift (param params (codes "remove"))) λ jremove.
        bind (on_part P C (assoc_remove_batch jremove)) λ _.
          bind (lift (param params (codes "add"))) λ jadd.
            bind (on_part P C (assoc_set_batch jadd))
              λ _. bind (commit_part P C commit) λ _. pure (acknowledged notification)

module _ ⦃B : Boost⦄ ⦃K : Kyoto⦄ where
  -- A commit depends on what is queued alone.
  commit-queues :
      {R : Type 0} (answer : R) (i : Ident) (a b : Association) (d : K.Db)
      → a.add ≡ b.add
      → a.remove ≡ b.remove
      → ((commit i a d).1 ≡ (commit i b d).1)
        × (((commit i a d).0 >>= λ _. ok answer) ≡ ((commit i b d).0 >>= λ _. ok answer))
  unfolding commit
  commit-queues answer i a b d ea er = (ground arith, ground arith)

module _ ⦃B : Boost⦄ ⦃J : Json⦄ ⦃K : Kyoto⦄ {Obj : Type 0} (P : Parts Obj K.Db)
    (C : Component Obj Association) where
  -- The server's link.update, on the parameters of a client's update request, leaves the database as
  -- the client's own commit would: it is acknowledged where that commit returns, and throws what it
  -- throws. The object is there
  -- and was not loaded; the client's keys are of words, its sets sorted, and nothing is queued both
  -- for addition and for removal.
  pub link_update-commit :
      (n : Bool) (a : Association) (c : ℕ) (id : Bytes) (o o' : Obj) (d : K.Db)
      → IsPart P C
      → P.assign_id (c ∷ id) o ≡ ok o'
      → P.id o' ≡ c ∷ id
      → P.exists o' d ≡ true
      → C.part o' ≡ fresh
      → Plain index_separator a.remove
      → Plain index_separator a.add
      → Rising a.remove
      → Rising a.add
      → Apart a.add a.remove
      → let i : Ident = record { type = P.type; id = c ∷ id } in
        let update = rpc_update P C n (J.object (update_params i a)) (o, d) in
        (update.1.1 ≡ (commit i a d).1)
        × (update.0 ≡ ((commit i a d).0 >>= λ _. ok (acknowledged n)))
  unfolding rpc_update on_part commit_part ident_of lookup list_eqb
  link_update-commit n a c id o o' d l assigned own there new wr wa sr sa apart =
      let i : Ident = record { type = P.type; id = c ∷ id } in
      let ps = update_params i a in
      let cleared = disassociate_all a.remove fresh in
      let read = associate_all a.add cleared in
      let q = queued a.remove a.add sr sa in
      let same =
        commit-queues (acknowledged n) i read a d q.0
          (q.1 ∙ erase_all-Apart a.add a.remove apart) in
      let done = commit_part-commits P C commit (acknowledged n) read (c ∷ id) o' d l own in
      rw
        (
          guard-passed P [] ps c id o o' d refl assigned there,
          param-object ps (codes "remove") (J.array (key_values a.remove)) refl,
          param-object ps (codes "add") (J.array (key_values a.add)) refl,
          new,
          assoc_remove_batch-array a.remove fresh wr,
          l.part-with_part cleared o',
          assoc_set_batch-array a.add cleared wa,
          l.with_part-with_part read cleared o',
        )
        (done.0 ∙ same.0, done.1 ∙ same.1)
