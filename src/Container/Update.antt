-- ===== src/Container/Update.antt =====
-- source/include/container.hh: the update that a client sends for the attributes of an object, and
-- the methods under "attribute" by which the server reads and writes them.
use libinv.Prelude.{
  ℕ, ◌≡◌, refl, Bool, true, List, [], ◌∷◌, ◌++◌, Bytes, codes, Option, some, lookup, nat_ord,
  list_ord, list_eqb, if◌then◌else◌, Strictly, append_nil,
}
use libinv.Exec.{Result, ok, ◌>>=◌, Exec, pure, lift, bind}
use libinv.Extern.Boost.{Boost}
use libinv.Extern.Json.{Json}
use libinv.Extern.Kyoto.{Kyoto}
use libinv.Index.{Ident}
use libinv.Rpc.{param}
use libinv.JsonRpc.Request.{addressed, add_param, request, addressed-request, add_param-request}
use libinv.Mixins.{Parts}
use libinv.Object.{guard}
use libinv.Object.Component.{
  Component, on_part, load_part, commit_part, acknowledged, IsPart, guard-passed, param-object,
  ident_of, commit_part-commits,
}
use libinv.Container.{Container, assign, attribute_value, clear, get, commit, names}
use libinv.Container.Repr.{repr, from_repr}
use libinv.Container.Reads.{attributes-survive}

module _ ⦃J : Json⦄ where
  -- build_update_request, with what uuid_string() gives; modified() is always true
  unfoldable pub build_update_request : Bytes → Ident → Container → Result (Option J.Value)
  build_update_request uuid i c = do
    named ← addressed (i.id ++ (codes ":" ++ uuid)) (codes "object.attribute.repr.set") i.id i.type
    jreq ← add_param (codes "repr") (repr c) named
    ok (some jreq)

  -- The parameters of the update.
  abbrev pub update_params : Ident → Container → List (Bytes × J.Value)
  update_params i c =
      (codes "id", J.text i.id) ∷ (codes "type", J.text i.type) ∷ (codes "repr", repr c) ∷ []

  pub build_update_request-params :
      (uuid : Bytes) (i : Ident) (c : Container)
      → build_update_request uuid i c
        ≡ ok (
            some (
              request
                (i.id ++ (codes ":" ++ uuid))
                (codes "object.attribute.repr.set")
                (update_params i c)))
  unfolding build_update_request
  build_update_request-params uuid i c =
      let sid = i.id ++ (codes ":" ++ uuid) in
      let method = codes "object.attribute.repr.set" in
      rw (
        addressed-request sid method i.id i.type,
        add_param-request sid method (codes "repr") (repr c)
            ((codes "id", J.text i.id) ∷ (codes "type", J.text i.type) ∷ []),
      )

-- The calls below have these parameters and are notifications or not; `message` is the message of
-- the database in the text of an exception.
module _ ⦃B : Boost⦄ ⦃J : Json⦄ ⦃K : Kyoto⦄ {Obj : Type 0} (P : Parts Obj K.Db)
    (C : Component Obj Container) (message : Bytes) where
  unfoldable pub rpc_repr_get : J.Value → Exec (Obj × K.Db) J.Value
  unfolding load_part
  rpc_repr_get params =
      bind (guard P [] params) λ _. bind (load_part P C get) λ _ s. pure (repr (C.part s.0)) s

  -- never generate responses to notifications
  unfoldable pub rpc_attribute_list : Bool → J.Value → Exec (Obj × K.Db) J.Value
  unfolding rpc_repr_get
  rpc_attribute_list notification params = if notification then pure J.null else rpc_repr_get params

  unfoldable pub rpc_attribute_set : Bool → J.Value → Exec (Obj × K.Db) J.Value
  unfolding on_part commit_part acknowledged
  rpc_attribute_set notification params = bind (guard P [] params) λ _.
      bind (lift (param params (codes "key"))) λ attrn.
        bind (lift (param params (codes "value"))) λ attrv.
          bind (on_part P C λ c. pure tt (assign (J.get_text attrn) (J.get_text attrv) c))
            λ _. bind (commit_part P C (commit message)) λ _. pure (acknowledged notification)

  unfoldable pub rpc_attribute_get : Bool → J.Value → Exec (Obj × K.Db) J.Value
  unfolding load_part
  rpc_attribute_get notification params =
      if notification
      then pure J.null
      else (bind (guard P [] params) λ _. bind (load_part P C get) λ _.
          bind (lift (param params (codes "key")))
            λ key s. pure (J.text (attribute_value (J.get_text key) (C.part s.0))) s)

  unfoldable pub rpc_repr_set : Bool → J.Value → Exec (Obj × K.Db) J.Value
  unfolding on_part load_part commit_part acknowledged
  rpc_repr_set notification params = bind (guard P [] params) λ _. bind (load_part P C get) λ _.
      bind (on_part P C λ c. pure tt (clear c)) λ _.
        bind (lift (param params (codes "repr"))) λ jrepr.
          bind (on_part P C (from_repr jrepr))
            λ _. bind (commit_part P C (commit message)) λ _. pure (acknowledged notification)

module _ ⦃B : Boost⦄ ⦃J : Json⦄ ⦃K : Kyoto⦄ {Obj : Type 0} (P : Parts Obj K.Db)
    (C : Component Obj Container) (message : Bytes) where
  -- The server's attribute.repr.set, on the parameters of a client's update request: the database is
  -- as after a commit of a container with the attributes of the client and the removal of those that
  -- the server loaded; the call is acknowledged where that commit returns, and throws what it throws. The object is there,
  -- its attributes load, and the client's are sorted by name.
  pub repr_set-commit :
      (n : Bool) (client loaded : Container) (c : ℕ) (id : Bytes) (o o' : Obj) (d : K.Db)
      → IsPart P C
      → P.assign_id (c ∷ id) o ≡ ok o'
      → P.id o' ≡ c ∷ id
      → P.exists o' d ≡ true
      → get (record { type = P.type; id = c ∷ id }) d (C.part o') ≡ (ok tt, loaded)
      → Strictly client.attrs
      → let i : Ident = record { type = P.type; id = c ∷ id } in
        let written : Container = record loaded {
          attrs = client.attrs;
          delete = loaded.delete ++ names loaded.attrs;
        } in
        let update = rpc_repr_set P C message n (J.object (update_params i client)) (o, d) in
        (update.1.1 ≡ (commit message i written d).1)
        × (update.0 ≡ ((commit message i written d).0 >>= λ _. ok (acknowledged n)))
  unfolding rpc_repr_set on_part load_part ident_of lookup list_eqb clear names
  repr_set-commit n client loaded c id o o' d l assigned own there got s =
      let i : Ident = record { type = P.type; id = c ∷ id } in
      let ps = update_params i client in
      let written : Container = record loaded {
        attrs = client.attrs;
        delete = loaded.delete ++ names loaded.attrs;
      } in
      let done =
        commit_part-commits P C (commit message) (acknowledged n) written (c ∷ id) o' d l own in
      rw
        (
          guard-passed P [] ps c id o o' d refl assigned there,
          own,
          got,
          l.part-with_part loaded o',
          param-object ps (codes "repr") (repr client) refl,
          l.with_part-with_part (clear loaded) loaded o',
          l.part-with_part (clear loaded) o',
          attributes-survive client (clear loaded) s,
          append_nil (loaded.delete ++ names loaded.attrs),
          l.with_part-with_part written (clear loaded) o',
        )
        done
