-- ===== src/Object/Requests.antt =====
-- source/include/object.hh, the requests that a client builds for an object. What uuid_string()
-- gives is an argument, a function of the number of calls before where there are several.
use libinv.Prelude.{
  some, ℕ, suc, ◌≡◌, Bool, List, [], ◌∷◌, ◌++◌, Bytes, codes, lookup, nat_ord, list_ord, list_eqb,
  if◌then◌else◌, arith,
}
use libinv.Exec.{Result, ok, ◌>>=◌}
use libinv.Extern.Json.{Json}
use libinv.Rpc.{object_params}
use libinv.Modes.{modes_modified}
use libinv.Modes.Repr.{mode_reprs}
use libinv.JsonRpc.{validate_single_request, request_id}
use libinv.JsonRpc.Request.{
  addressed, add_param, request, started, addressed-request, add_param-request, validate-request,
  started-request, request_members,
}
use libinv.Mixins.{Mixin, Parts, foreach_update_requests}
use libinv.Mixins.Repr.{repr}
use libinv.Object.{rpc_remove, rpc_clear}
use libinv.Object.Methods.{Throws, missing_repr-Throws}

module _ ⦃J : Json⦄ where
  pub object_params-request :
      (sid method : Bytes) (ps : List (Bytes × J.Value))
      → object_params (request sid method ps) ≡ ok (J.object ps)
  unfolding object_params lookup list_eqb
  object_params-request sid method ps = ground (
    arith,
    J.find_member-object (request_members sid method ps) (codes "params"),
    J.is_object-object ps,
  )

module _ ⦃J : Json⦄ {Obj Db : Type 0} (P : Parts Obj Db) (ms : List (Mixin Obj Db)) where
  -- self::id() + ":" + uuid_string()
  unfoldable pub call_id : Bytes → Obj → Bytes
  call_id uuid o = P.id o ++ (codes ":" ++ uuid)

  -- build_get_request(id)
  unfoldable pub build_get_request : Bytes → Obj → Bytes → Result J.Value
  unfolding call_id
  build_get_request uuid o id = addressed (call_id uuid o) (codes "object.repr.get") id P.type

  unfoldable pub build_create_request : Bytes → Bool → Obj → Result J.Value
  unfolding call_id
  build_create_request uuid push_id o = do
    jreq ←
        add_param (codes "type") (J.text P.type)
          (started (call_id uuid o) (codes "object.repr.create"))
    add_param (codes "repr") (repr P ms push_id o) jreq

  unfoldable pub build_clear_request : Bytes → Obj → Result J.Value
  unfolding call_id
  build_clear_request uuid o = addressed (call_id uuid o) (codes "object.clear") (P.id o) P.type

  unfoldable pub build_remove_request : Bytes → Obj → Result J.Value
  unfolding call_id
  build_remove_request uuid o = addressed (call_id uuid o) (codes "object.remove") (P.id o) P.type

  unfoldable pub build_mode_update_request : Bytes → Obj → Result J.Value
  unfolding call_id
  build_mode_update_request uuid o = do
    jreq ← addressed (call_id uuid o) (codes "object.mode.update") (P.id o) P.type
    jset ← add_param (codes "mode_set") (J.array (mode_reprs (P.modes o).add_modes)) jreq
    add_param (codes "mode_remove") (J.array (mode_reprs (P.modes o).remove_modes)) jset

  -- build_update_request: the requests of the batch
  unfoldable pub build_update_request : (ℕ → Bytes) → Obj → Result (List J.Value)
  unfolding build_mode_update_request foreach_update_requests
  build_update_request uuid o =
      if modes_modified (P.modes o)
      then (do
        modereq ← build_mode_update_request (uuid 0) o
        rest ← foreach_update_requests ms (λ n. uuid (suc n)) o
        ok (modereq ∷ rest))
      else foreach_update_requests ms uuid o

  -- The parameters of a request for an object by its id and type.
  abbrev pub address : Bytes → List (Bytes × J.Value)
  address id = (codes "id", J.text id) ∷ (codes "type", J.text P.type) ∷ []

  -- The parameters of a create request.
  abbrev pub create_params : Bool → Obj → List (Bytes × J.Value)
  create_params push_id o = (codes "type", J.text P.type) ∷ (codes "repr", repr P ms push_id o) ∷ []

  -- The parameters of a mode update.
  abbrev pub mode_update_params : Obj → List (Bytes × J.Value)
  mode_update_params o =
      address (P.id o)
      ++ (codes "mode_set", J.array (mode_reprs (P.modes o).add_modes))
        ∷ (codes "mode_remove", J.array (mode_reprs (P.modes o).remove_modes))
        ∷ []

module _ ⦃J : Json⦄ where
  -- A builder returned a request that the server's check accepts, with this id, method and
  -- parameters.
  pub record Builds (built : Result J.Value) (sid method : Bytes) (ps : List (Bytes × J.Value))
      : Type 0 where
    pub jreq : J.Value
    pub built-jreq : built ≡ ok jreq
    pub valid : validate_single_request jreq ≡ ok tt
    pub id : request_id jreq ≡ ok (J.text sid)
    pub called : J.find_member jreq (codes "method") ≡ some (J.text method)
    pub params : object_params jreq ≡ ok (J.object ps)

  pub request-Builds :
      (built : Result J.Value) (sid method : Bytes) (ps : List (Bytes × J.Value))
      → built ≡ ok (request sid method ps)
      → Builds built sid method ps
  unfolding request_id lookup list_eqb
  request-Builds built sid method ps e = record {
    jreq = request sid method ps;
    built-jreq = e;
    valid = validate-request sid method ps;
    id = ground (arith, J.find_member-object (request_members sid method ps) (codes "id"));
    called = J.find_member-object (request_members sid method ps) (codes "method");
    params = object_params-request sid method ps;
  }

module _ ⦃J : Json⦄ {Obj Db : Type 0} (P : Parts Obj Db) (ms : List (Mixin Obj Db)) where
  -- Each builder of a request for an object returns a request that passes the server's check, with
  -- the object's id and the uuid for an id, the method of the builder, and as parameters the type
  -- with the id, with the JSON form, or with the id and the modes to set and to remove.
  pub builders-Builds :
      (uuid : Bytes) (push_id : Bool) (o : Obj) (id : Bytes)
      → Builds
          (build_get_request P ms uuid o id)
          (call_id P ms uuid o)
          (codes "object.repr.get")
          (address P ms id)
        × Builds
            (build_create_request P ms uuid push_id o)
            (call_id P ms uuid o)
            (codes "object.repr.create")
            (create_params P ms push_id o)
        × Builds
            (build_clear_request P ms uuid o)
            (call_id P ms uuid o)
            (codes "object.clear")
            (address P ms (P.id o))
        × Builds
            (build_remove_request P ms uuid o)
            (call_id P ms uuid o)
            (codes "object.remove")
            (address P ms (P.id o))
        × Builds
            (build_mode_update_request P ms uuid o)
            (call_id P ms uuid o)
            (codes "object.mode.update")
            (mode_update_params P ms o)
  unfolding build_get_request build_create_request build_clear_request build_remove_request
      build_mode_update_request
  builders-Builds uuid push_id o id =
      let sid = call_id P ms uuid o in
      let sets = J.array (mode_reprs (P.modes o).add_modes) in
      let removes = J.array (mode_reprs (P.modes o).remove_modes) in
      let update = codes "object.mode.update" in
      (
        request-Builds _ sid (codes "object.repr.get") (address P ms id)
            (addressed-request sid (codes "object.repr.get") id P.type),
        request-Builds _ sid (codes "object.repr.create") (create_params P ms push_id o) (
            rw (
              started-request sid (codes "object.repr.create"),
              add_param-request sid (codes "object.repr.create") (codes "type") (J.text P.type) [],
              add_param-request sid (codes "object.repr.create") (codes "repr")
                  (repr P ms push_id o) ((codes "type", J.text P.type) ∷ []),
            )),
        request-Builds _ sid (codes "object.clear") (address P ms (P.id o))
            (addressed-request sid (codes "object.clear") (P.id o) P.type),
        request-Builds _ sid (codes "object.remove") (address P ms (P.id o))
            (addressed-request sid (codes "object.remove") (P.id o) P.type),
        request-Builds _ sid update (mode_update_params P ms o) (
            rw (
              addressed-request sid update (P.id o) P.type,
              add_param-request sid update (codes "mode_set") sets (address P ms (P.id o)),
              add_param-request sid update (codes "mode_remove") removes
                  (address P ms (P.id o) ++ (codes "mode_set", sets) ∷ []),
            )),
      )

  -- The server refuses every remove and clear request that a client builds: rpc_remove and rpc_clear
  -- throw on its parameters, and leave the database as it is.
  pub built_removal-Throws :
      (id : Bytes) (s : Obj × Db)
      → let params = J.object (address P ms id) in
        Throws P ms (rpc_remove P ms params s)
        × ((rpc_remove P ms params s).1.1 ≡ s.1)
        × Throws P ms (rpc_clear P ms params s)
        × ((rpc_clear P ms params s).1.1 ≡ s.1)
  unfolding lookup list_eqb
  built_removal-Throws id s =
      missing_repr-Throws P ms (J.object (address P ms id)) s
        (J.find_member-object (address P ms id) (codes "repr"))
