-- ===== src/Object/Session/Remote.antt =====
-- A get over a session whose other end is the server, with the requests and responses as texts.
use libinv.Prelude.{
  ◌≡◌, Bool, true, false, List, ◌∷◌, Bytes, codes, some, ℕ, Strictly, arith, lookup, list_eqb,
  nat_ord, list_ord,
}
use libinv.Exec.{Result, ok, ◌>>=◌, Exec}
use libinv.Extern.Boost.{Boost}
use libinv.Extern.Json.{Json}
use libinv.JsonRpc.{
  parse_request, parse_response, validate_request, validate_response, validate_single_request,
}
use libinv.Rpc.{Handler, complete, complete_single}
use libinv.Client
use libinv.Client.{handle, receive, set_value}
use libinv.Mixins.{Mixin, Parts}
use libinv.Object.Handlers.{get_handler, wrap_refcount_check}
use libinv.JsonRpc.Request.{request, request_members, validate-request}
use libinv.JsonRpc.Responses.{validate-assign_result}
use libinv.JsonRpc.{assign_result}
use libinv.Rpc.{create}
use libinv.Modes.{fresh}
use libinv.Modes.Repr.{NineBits}
use libinv.Mixins.{foreach_on_get}
use libinv.Mixins.Repr.{repr}
use libinv.Mixins.RoundTrip.{IsIndexed, Named, AllRead, own_members}
use libinv.Object.{get, clear}
use libinv.Object.Requests.{address, call_id}
use libinv.Object.Serve.{object_handler}
use libinv.Object.Fetch.{get_handler-fetched, repr_full}
use libinv.Object.Session.{get_session, get_async, completed_on, client_request}

module _ ⦃J : Json⦄ where
  -- The server's answer to a text, in text.
  abbrev pub over :
      ⦃B : Boost⦄ {Db : Type 0} → List (Bytes × Handler Db) → Db → Bytes → Result Bytes
  over types d text = (complete types text d).0 >>= λ response. ok (J.print response)

  -- The text of a value is read as that value.
  abbrev pub PrintsBack : J.Value → Type 0
  PrintsBack v = J.parse (J.print v) ≡ some v

  pub request_arrives :
      (jreq : J.Value)
      → PrintsBack jreq
      → J.is_array jreq ≡ false
      → J.is_object jreq ≡ true
      → validate_single_request jreq ≡ ok tt
      → parse_request (J.print jreq) ≡ ok jreq
  unfolding parse_request validate_request
  request_arrives jreq p a o h = ground (arith, p, a, o, h)

  pub response_arrives :
      (v : J.Value) → PrintsBack v → validate_response v ≡ ok tt → parse_response (J.print v) ≡ ok v
  unfolding parse_response
  response_arrives v p h = ground (arith, p, h)

  pub completes :
      ⦃B : Boost⦄ {Db : Type 0} (types : List (Bytes × Handler Db)) (jreq response : J.Value)
      (d d' : Db)
      → parse_request (J.print jreq) ≡ ok jreq
      → J.is_array jreq ≡ false
      → complete_single types jreq d ≡ (ok response, d')
      → complete types (J.print jreq) d ≡ (ok response, d')
  unfolding complete
  completes types jreq response d d' p a s = ground (arith, p, a, s)

  pub served_text :
      ⦃B : Boost⦄ {Db : Type 0} (types : List (Bytes × Handler Db)) (jreq response : J.Value)
      (d d' : Db)
      → parse_request (J.print jreq) ≡ ok jreq
      → J.is_array jreq ≡ false
      → complete_single types jreq d ≡ (ok response, d')
      → over types d (J.print jreq) ≡ ok (J.print response)
  served_text types jreq response d d' p a s = rw (completes types jreq response d d' p a s)

  -- A request that is answered: its handler is called with the response.
  pub answered :
      {Obj : Type 0} (call : Bytes → Result Bytes) (jreq response : J.Value)
      (handler : J.Value → Exec Obj (Unit {0})) (o : Obj)
      → call (J.print jreq) ≡ ok (J.print response)
      → parse_response (J.print response) ≡ ok response
      → (handler response o).0 ≡ ok tt
      → let done = Client.complete_single call (client_request jreq handler, some o) in
        (done.0 ≡ ok tt) × (done.1.1 ≡ some (handler response o).1)
  unfolding Client.complete_single client_request receive handle set_value wrap_refcount_check
  answered call jreq response handler o c p h = (ground (arith, c, p, h), ground (arith, c, p, h))

module _ ⦃B : Boost⦄ ⦃J : Json⦄ {Obj Db : Type 0} (P : Parts Obj Db)
    (ms : Bool → List (Mixin Obj Db)) (broken : Exec (Obj × Db) J.Value) where
  -- A client's get of an object over a session with the server returns, and the client's object then
  -- has the JSON form of the object that the server loaded: id, type, modes and every mixin. The
  -- server knows the type and holds the object, whose modes are nine bits and sorted; clear leaves
  -- the client's object no modes; each mixin reads its own form and leaves the others alone, no two
  -- have one name, and on_get changes no form; ids and modes are set apart. The texts of the request and of the response are read
  -- as what was printed.
  pub get_session-fetched :
      (file uuid : Bytes) (types : List (Bytes × Handler Db)) (c : ℕ) (id : Bytes)
      (client new named loaded : Obj) (d d' : Db)
      → create P.type types ≡ ok (object_handler P ms new broken)
      → P.assign_id (c ∷ id) new ≡ ok named
      → P.exists named d ≡ true
      → get P (ms false) (named, d) ≡ (ok tt, (loaded, d'))
      → IsIndexed P
      → P.modes (clear P (ms false) client) ≡ fresh
      → NineBits (P.modes loaded).modes
      → Strictly (P.modes loaded).modes
      → Named (own_members P loaded) (ms false) loaded
      → AllRead P (ms false) loaded
      → ((o : Obj)
          → repr P (ms false) true (foreach_on_get (ms false) o) ≡ repr P (ms false) true o)
      → PrintsBack (
          request
            (call_id P (ms false) uuid client)
            (codes "object.repr.get")
            (address P (ms false) (c ∷ id)))
      → PrintsBack (
          assign_result
            (request
              (call_id P (ms false) uuid client)
              (codes "object.repr.get")
              (address P (ms false) (c ∷ id)))
            (repr P (ms false) true loaded))
      → (o : Obj) × (get_session P (ms false) file (over types d) uuid (c ∷ id) client
          ≡ (ok tt, some o))
        × (repr P (ms false) true o ≡ repr P (ms false) true loaded)
  unfolding get_session get_async completed_on lookup list_eqb
  get_session-fetched file uuid types c id client new named loaded d d' t a e g l m b s nm all q pq
        pr =
      let sid = call_id P (ms false) uuid client in
      let ps = address P (ms false) (c ∷ id) in
      let jreq = request sid (codes "object.repr.get") ps in
      let response = assign_result jreq (repr P (ms false) true loaded) in
      let done =
        get_handler-fetched P ms broken file uuid types c id client new named loaded d d' t a e g l
          m b s nm all q in
      let members = request_members sid (codes "object.repr.get") ps in
      let valid = validate-request sid (codes "object.repr.get") ps in
      let single : J.is_array jreq ≡ false = J.is_array-object members in
      let valid_response =
        validate-assign_result jreq (J.text sid) (repr P (ms false) true loaded) valid
          (J.find_member-object members (codes "id")) (repr_full P (ms false) loaded) in
      let sent =
        served_text types jreq response d d'
          (request_arrives jreq pq single (J.is_object-object members) valid) single done.1 in
      let back =
        answered (over types d) jreq response (get_handler P (ms false) file) client sent
          (response_arrives response pr valid_response) done.2 in
      (
        (get_handler P (ms false) file response client).1,
        ground (arith, done.0, back.0, back.1),
        done.3,
      )
