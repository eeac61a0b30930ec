-- ===== src/Object/Serve.antt =====
-- source/include/object.hh and rpc.hh: the methods of an object, and how the server hands a call to
-- a new object of the type that it names. Where Namespace::path has no defined result the call comes
-- to `broken`.
use libinv.Prelude.{
  ◌++◌, ℕ, ◌≡◌, refl, Bool, false, List, [], ◌∷◌, Bytes, codes, none, some, contains, lookup,
  list_eqb, nat_ord, list_ord, arith,
}
use libinv.Exec.{Result, ok, Exec, bind, lift}
use libinv.Extern.Boost.{Boost}
use libinv.Extern.Json.{Json}
use libinv.Namespace
use libinv.Namespace.{Namespace, of_method}
use libinv.JsonRpc.{has_member, assign_result, is_notification}
use libinv.JsonRpc.Request.{request, request_members}
use libinv.Rpc.{
  Handler, object_params, param_type, namespaces, create, answer, complete_call,
  complete_datamodel_call, complete_single, rpc_method_get,
}
use libinv.Mixins.{Impl, Mixin, Parts, otherwise, is_no_such_method, roster_call}
use libinv.Object.{rpc_call, rpc_get, rpc_create, rpc_mode_update, rpc_remove, rpc_clear}
use libinv.Object.Requests.{object_params-request}

module _ ⦃J : Json⦄ {Obj Db : Type 0} where
  -- Object::methods()
  unfoldable pub own_methods : Parts Obj Db → List (Mixin Obj Db) → List (Bytes × Impl Obj Db)
  own_methods P ms =
      (codes "repr.get", rpc_get P ms)
      ∷ (codes "repr.create", rpc_create P ms)
      ∷ (codes "mode.update", rpc_mode_update P ms)
      ∷ (codes "remove", rpc_remove P ms)
      ∷ (codes "clear", rpc_clear P ms)
      ∷ []

module _ ⦃J : Json⦄ where
  -- method(), of a request that the check has passed
  unfoldable pub method_of : J.Value → Bytes
  method_of request = elim (J.find_member request (codes "method")) [
    | none ↦ []
    | some method ↦ J.get_text method
  ]

module _ ⦃J : Json⦄ {Obj Db : Type 0} (P : Parts Obj Db) (ms : Bool → List (Mixin Obj Db))
    (new : Obj) (broken : Exec (Obj × Db) J.Value) where
  -- obj->rpc_call(db, call, alloc) of DatamodelHandler::complete, for an object that was just made
  unfoldable pub object_handler : Handler Db
  unfolding own_methods is_notification method_of
  object_handler ns request d =
      let mixins = ms (is_notification request) in
      let called : Result J.Value × (Obj × Db) = elim (Namespace.path ns) [
        | none ↦ broken (new, d)
        | some path ↦
            bind (lift (object_params request))
              (rpc_call (own_methods P mixins) mixins path (method_of request)) (new, d)
      ] in
      (called.0, called.1.1)

module _ ⦃B : Boost⦄ ⦃J : Json⦄ where
  -- The tokens of a method name, behind "object" and "repr".
  abbrev repr_tokens : Bytes → Namespace
  repr_tokens w = record { stack = []; tokenized = codes "object" ∷ codes "repr" ∷ w ∷ [] }

  named_namespaces :
      (sid : Bytes) (c : ℕ) (w : Bytes) (ps : List (Bytes × J.Value))
      → contains b'.' (c ∷ w) ≡ false
      → namespaces (request sid (codes "object.repr." ++ c ∷ w) ps) ≡ repr_tokens (c ∷ w)
  unfolding namespaces of_method lookup list_eqb contains
  named_namespaces sid c w ps h =
      let method = codes "object.repr." ++ c ∷ w in
      ground (
        arith,
        h,
        J.find_member-object (request_members sid method ps) (codes "method"),
        J.get_text-text method,
        B.tokens_word b'.' b'o' (codes "bject") (codes "repr." ++ c ∷ w) refl,
        B.tokens_word b'.' b'r' (codes "epr") (c ∷ w) refl,
        B.tokens_last b'.' c w,
      )

module _ ⦃B : Boost⦄ ⦃J : Json⦄ {Obj Db : Type 0} (P : Parts Obj Db)
    (ms : Bool → List (Mixin Obj Db)) (new : Obj) (broken : Exec (Obj × Db) J.Value) where
  -- What the server does for a request with an id that calls a method of an object under "repr",
  -- where the datamodel has the type: the answer to the result of the method on a new object.
  served :
      (types : List (Bytes × Handler Db)) (sid : Bytes) (c : ℕ) (w path : Bytes)
      (impl : Impl Obj Db) (ps : List (Bytes × J.Value)) (v : J.Value) (d : Db) (s : Obj × Db)
      → contains b'.' (c ∷ w) ≡ false
      → Namespace.path
          (record { stack = codes "object" ∷ []; tokenized = codes "repr" ∷ (c ∷ w) ∷ [] })
        ≡ some path
      → rpc_method_get path (own_methods P (ms false)) ≡ ok impl
      → create P.type types ≡ ok (object_handler P ms new broken)
      → lookup (codes "type") ps ≡ some (J.text P.type)
      → impl (J.object ps) (new, d) ≡ (ok v, s)
      → let jreq = request sid (codes "object.repr." ++ c ∷ w) ps in
        complete_single types jreq d ≡ (ok (assign_result jreq v), s.1)
  unfolding complete_single answer complete_call complete_datamodel_call param_type object_handler
      is_notification has_member method_of rpc_call otherwise is_no_such_method roster_call
      Namespace.first Namespace.pop lookup list_eqb
  served types sid c w path impl ps v d s n p m t y g =
      let method = codes "object.repr." ++ c ∷ w in
      let members = request_members sid method ps in
      ground (
        arith,
        named_namespaces sid c w ps n,
        object_params-request sid method ps,
        J.find_member-object ps (codes "type"),
        J.is_text-text P.type,
        J.get_text-text P.type,
        J.find_member-object members (codes "id"),
        J.find_member-object members (codes "method"),
        p,
        m,
        t,
        y,
        g,
      )

  pub get_served :
      (types : List (Bytes × Handler Db)) (sid : Bytes) (ps : List (Bytes × J.Value)) (v : J.Value)
      (d : Db) (s : Obj × Db)
      → create P.type types ≡ ok (object_handler P ms new broken)
      → lookup (codes "type") ps ≡ some (J.text P.type)
      → rpc_get P (ms false) (J.object ps) (new, d) ≡ (ok v, s)
      → let jreq = request sid (codes "object.repr.get") ps in
        complete_single types jreq d ≡ (ok (assign_result jreq v), s.1)
  unfolding own_methods rpc_method_get Namespace.path lookup list_eqb contains
  get_served types sid ps v d s c t g =
      served types sid b'g' (codes "et") (codes "repr.get") (rpc_get P (ms false)) ps v d s refl
        refl refl c t g

  pub create_served :
      (types : List (Bytes × Handler Db)) (sid : Bytes) (ps : List (Bytes × J.Value)) (v : J.Value)
      (d : Db) (s : Obj × Db)
      → create P.type types ≡ ok (object_handler P ms new broken)
      → lookup (codes "type") ps ≡ some (J.text P.type)
      → rpc_create P (ms false) (J.object ps) (new, d) ≡ (ok v, s)
      → let jreq = request sid (codes "object.repr.create") ps in
        complete_single types jreq d ≡ (ok (assign_result jreq v), s.1)
  unfolding own_methods rpc_method_get Namespace.path lookup list_eqb contains
  create_served types sid ps v d s c t g =
      served types sid b'c' (codes "reate") (codes "repr.create") (rpc_create P (ms false)) ps v d s
        refl refl refl c t g
