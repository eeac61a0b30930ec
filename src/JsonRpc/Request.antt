-- ===== src/JsonRpc/Request.antt =====
-- SingleRequest of source/include/jsonrpc.hh and source/jsonrpc.cc: a request that is built up
-- member by member, and what the builders of the objects have in common.
use libinv.Prelude.{
  ◌≡◌, refl, List, [], ◌∷◌, ◌++◌, Bytes, codes, none, some, list_eqb, lookup, nat_ord, list_ord,
  if◌then◌else◌, arith,
}
use libinv.Exception.{invalid_request_of}
use libinv.Exec.{Result, ok, err, ◌>>=◌}
use libinv.Extern.Json.{Json}
use libinv.JsonRpc.{
  version, invalid_use, validate_single_request, validate_id, has_member, member_is,
}
use libinv.JsonRpc.Responses.{version_accepted}

module _ ⦃J : Json⦄ where
  -- AddMember: behind the members that are there
  unfoldable pub add_member : Bytes → J.Value → J.Value → J.Value
  add_member name m v = J.object (J.members v ++ (name, m) ∷ [])

  -- A write through the iterator that FindMember gives: the first member of the name.
  unfoldable pub replace : Bytes → J.Value → List (Bytes × J.Value) → List (Bytes × J.Value)
  replace name m [] = []
  replace name m ((k, v) ∷ ms) =
      let rest = replace name m ms in if list_eqb k name then (k, m) ∷ ms else (k, v) ∷ rest

  -- update_member
  unfoldable pub update_member : Bytes → Bytes → J.Value → J.Value
  unfolding add_member replace
  update_member key svalue v = elim (J.find_member v key) [
    | none ↦ add_member key (J.text svalue) v
    | some old ↦ J.object (replace key (J.text svalue) (J.members v))
  ]

  -- SingleRequest()
  unfoldable pub single_request : J.Value
  unfolding update_member
  single_request = update_member (codes "jsonrpc") version (J.object [])

  -- id(sid), and method(sid); the namespaces are drawn from the method where they are used.
  unfoldable pub set_id : Bytes → J.Value → J.Value
  unfolding update_member
  set_id sid = update_member (codes "id") sid

  unfoldable pub set_method : Bytes → J.Value → J.Value
  unfolding update_member
  set_method sid = update_member (codes "method") sid

  -- params(true)
  unfoldable pub create_params : J.Value → J.Value
  unfolding add_member
  create_params = add_member (codes "params") (J.object [])

  -- params()
  unfoldable pub request_params : J.Value → Result J.Value
  request_params v = elim (J.find_member v (codes "params")) [
    | none ↦ err (invalid_use (codes "Called params() on a SingleRequest without parameters."))
    | some params ↦ ok params
  ]

  -- params().AddMember(name, value)
  unfoldable pub add_param : Bytes → J.Value → J.Value → Result J.Value
  unfolding request_params add_member replace
  add_param name value v = do
    params ← request_params v
    ok (J.object (replace (codes "params") (add_member name value params) (J.members v)))

  -- id_string()
  unfoldable pub id_string : J.Value → Result Bytes
  id_string v = elim (J.find_member v (codes "id")) [
    | none ↦ err (invalid_use (codes "Called id_string() on an object without one."))
    | some id ↦ ok (J.get_text id)
  ]

  -- The calls that each builder of a request begins with.
  unfoldable pub started : Bytes → Bytes → J.Value
  unfolding single_request set_id set_method create_params
  started sid method = create_params (set_method method (set_id sid single_request))

  -- The calls by which a builder names the object that the call is for.
  unfoldable pub addressed : Bytes → Bytes → Bytes → Bytes → Result J.Value
  unfolding started add_param
  addressed sid method id type = do
    jreq ← add_param (codes "id") (J.text id) (started sid method)
    add_param (codes "type") (J.text type) jreq

  -- A request with its members in the order in which a builder adds them.
  abbrev pub request_members : Bytes → Bytes → List (Bytes × J.Value) → List (Bytes × J.Value)
  request_members sid method ps =
      (codes "jsonrpc", J.text version)
      ∷ (codes "id", J.text sid)
      ∷ (codes "method", J.text method)
      ∷ (codes "params", J.object ps)
      ∷ []

  abbrev pub request : Bytes → Bytes → List (Bytes × J.Value) → J.Value
  request sid method ps = J.object (request_members sid method ps)

module _ ⦃J : Json⦄ where
  update_new :
      (key s : Bytes) (ms : List (Bytes × J.Value))
      → lookup key ms ≡ none
      → update_member key s (J.object ms) ≡ J.object (ms ++ (key, J.text s) ∷ [])
  unfolding update_member add_member
  update_new key s ms h = ground (arith, J.find_member-object ms key, J.members-object ms, h)

  pub started-request : (sid method : Bytes) → started sid method ≡ request sid method []
  unfolding started single_request set_id set_method create_params add_member lookup list_eqb
  started-request sid method =
      let a : List (Bytes × J.Value) = (codes "jsonrpc", J.text version) ∷ [] in
      let b : List (Bytes × J.Value) = a ++ (codes "id", J.text sid) ∷ [] in
      let c : List (Bytes × J.Value) = b ++ (codes "method", J.text method) ∷ [] in
      rw (
        update_new (codes "jsonrpc") version [] refl,
        update_new (codes "id") sid a refl,
        update_new (codes "method") method b refl,
        add_member,
        J.members-object c,
      )

  pub add_param-request :
      (sid method name : Bytes) (value : J.Value) (ps : List (Bytes × J.Value))
      → add_param name value (request sid method ps)
        ≡ ok (request sid method (ps ++ (name, value) ∷ []))
  unfolding add_param request_params add_member replace lookup list_eqb
  add_param-request sid method name value ps =
      let ms = request_members sid method ps in
      ground
        (arith, J.find_member-object ms (codes "params"), J.members-object ms, J.members-object ps)

  pub addressed-request :
      (sid method id type : Bytes)
      → addressed sid method id type
        ≡ ok (request sid method ((codes "id", J.text id) ∷ (codes "type", J.text type) ∷ []))
  unfolding addressed
  addressed-request sid method id type = rw (
    started-request sid method,
    add_param-request sid method (codes "id") (J.text id) [],
    add_param-request sid method (codes "type") (J.text type) ((codes "id", J.text id) ∷ []),
  )

  -- A request that is built so passes the check of the server.
  pub validate-request :
      (sid method : Bytes) (ps : List (Bytes × J.Value))
      → validate_single_request (request sid method ps) ≡ ok tt
  unfolding validate_single_request validate_id has_member member_is lookup list_eqb
  validate-request sid method ps =
      let ms = request_members sid method ps in
      ground (
        arith,
        J.is_object-object ms,
        J.find_member-object ms (codes "id"),
        J.find_member-object ms (codes "method"),
        J.is_text-text sid,
        J.is_text-text method,
        version_accepted invalid_request_of (J.object ms)
            (J.find_member-object ms (codes "jsonrpc")),
      )
