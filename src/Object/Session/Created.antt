-- ===== src/Object/Session/Created.antt =====
-- A commit over a session of an object that is not in the database: the server creates it.
use libinv.Prelude.{
  ◌≡◌, refl, ap, Bool, true, false, List, [], ◌∷◌, Bytes, codes, some, ℕ, Strictly, arith, lookup,
  list_eqb, nat_ord, list_ord,
}
use libinv.Exec.{ok, Exec}
use libinv.Exception.{invalid_repr}
use libinv.Extern.Boost.{Boost}
use libinv.Extern.Json.{Json}
use libinv.JsonRpc.{assign_result}
use libinv.JsonRpc.Request.{
  request, request_members, started-request, add_param-request, validate-request,
}
use libinv.JsonRpc.Responses.{validate-assign_result}
use libinv.JsonRpc.Reply.{check_batch, response_read, assign_result-object}
use libinv.Modes.{fresh}
use libinv.Modes.Repr.{NineBits}
use libinv.Rpc.{Handler, complete, create}
use libinv.Mixins.{Mixin, Parts, foreach_db_backed}
use libinv.Mixins.Repr.{repr, from_repr}
use libinv.Mixins.RoundTrip.{IsIndexed, Named, AllRead, own_members, from_repr-restores}
use libinv.Object
use libinv.Object.{rpc_create}
use libinv.Object.Component.{param-object}
use libinv.Object.Requests.{build_create_request, create_params, call_id}
use libinv.Object.Handlers.{commit_handler, commit_request, committed}
use libinv.Object.Serve.{object_handler, create_served}
use libinv.Object.Session.{commit_session, commit_async, completed_on}
use libinv.Object.Session.Remote.{
  over, PrintsBack, request_arrives, response_arrives, served_text, completes, answered,
}

module _ ⦃J : Json⦄ where
  -- The create request of an object.
  abbrev pub creation :
      {Obj Db : Type 0} → Parts Obj Db → List (Mixin Obj Db) → Bytes → Obj → J.Value
  creation P ms uuid o =
      request (call_id P ms uuid o) (codes "object.repr.create") (create_params P ms true o)

  creation_built :
      {Obj Db : Type 0} (P : Parts Obj Db) (ms : List (Mixin Obj Db)) (uuid : Bytes) (o : Obj)
      → build_create_request P ms uuid true o ≡ ok (creation P ms uuid o)
  unfolding build_create_request
  creation_built P ms uuid o =
      let sid = call_id P ms uuid o in
      rw (
        started-request sid (codes "object.repr.create"),
        add_param-request sid (codes "object.repr.create") (codes "type") (J.text P.type) [],
        add_param-request sid (codes "object.repr.create") (codes "repr") (repr P ms true o)
            ((codes "type", J.text P.type) ∷ []),
      )

module _ ⦃J : Json⦄ {Obj Db : Type 0} (P : Parts Obj Db) (ms : List (Mixin Obj Db)) where
  -- What the server's object reads from the JSON form of the client's.
  abbrev pub read_by : Obj → Obj → Obj
  read_by drawn client = (from_repr P ms (repr P ms true client) drawn).1

  rpc_create-stored :
      (client new drawn stored : Obj) (d d' : Db)
      → P.generate_id (new, d) ≡ (ok tt, (drawn, d))
      → (from_repr P ms (repr P ms true client) drawn).0 ≡ ok tt
      → P.exists (read_by drawn client) d ≡ false
      → Object.commit P ms (read_by drawn client, d) ≡ (ok tt, (stored, d'))
      → rpc_create P ms (J.object (create_params P ms true client)) (new, d)
        ≡ (ok (J.text (P.id stored)), (stored, d'))
  unfolding rpc_create lookup list_eqb
  rpc_create-stored client new drawn stored d d' g r x c =
      let p =
        param-object (create_params P ms true client) (codes "repr") (repr P ms true client) refl in
      ground (arith, p, g, r, x, c)

  -- What the handler of a commit does with the response to a created id.
  handled :
      (file : Bytes) (jreq jid : J.Value) (id : Bytes) (client named : Obj)
      → J.find_member jreq (codes "id") ≡ some jid
      → J.is_null (J.text id) ≡ false
      → P.assign_id id client ≡ ok named
      → commit_handler P ms file (assign_result jreq (J.text id)) client
        ≡ (ok tt, committed P ms file named)
  unfolding commit_handler check_batch
  handled file jreq jid id client named i n a =
      let read = response_read file jreq jid (J.text id) invalid_repr [] i n in
      ground (
        arith,
        assign_result-object jreq jid (J.text id) i n,
        read.1,
        read.2,
        J.get_text-text id,
        a,
      )

module _ ⦃B : Boost⦄ ⦃J : Json⦄ {Obj Db : Type 0} (P : Parts Obj Db)
    (ms : Bool → List (Mixin Obj Db)) (broken : Exec (Obj × Db) J.Value) where
  -- A commit over a session of an object that was not loaded, with its id sent along, returns: the
  -- client's object gets the id of the object that the server stored and has nothing more to commit,
  -- and the server's database is as after the commit of an object with the JSON form of the
  -- client's. The server knows the type and draws an id without a write, for an object without
  -- modes; the object that it reads is not in its database, its commit returns, and the id of what
  -- is then stored can be given to the client's object. The client's modes are nine bits and sorted;
  -- each mixin reads its own form and leaves the others alone, no two have one name; ids and modes
  -- are set apart; the texts of the request and of the response are read as what was printed.
  pub commit_session-created :
      (file : Bytes) (uuid : ℕ → Bytes) (types : List (Bytes × Handler Db)) (generated_id : Bool)
      (client named new drawn stored : Obj) (d d' : Db)
      → create P.type types ≡ ok (object_handler P ms new broken)
      → foreach_db_backed (ms false) client ≡ false
      → P.generate_id (new, d) ≡ (ok tt, (drawn, d))
      → P.exists (read_by P (ms false) drawn client) d ≡ false
      → Object.commit P (ms false) (read_by P (ms false) drawn client, d) ≡ (ok tt, (stored, d'))
      → P.assign_id (P.id stored) client ≡ ok named
      → IsIndexed P
      → P.modes drawn ≡ fresh
      → NineBits (P.modes client).modes
      → Strictly (P.modes client).modes
      → Named (own_members P client) (ms false) client
      → AllRead P (ms false) client
      → PrintsBack (creation P (ms false) (uuid 0) client)
      → PrintsBack (assign_result (creation P (ms false) (uuid 0) client) (J.text (P.id stored)))
      → (commit_session P (ms false) file (over types d) uuid generated_id true client
          ≡ (ok tt, some (committed P (ms false) file named)))
        × ((complete types (J.print (creation P (ms false) (uuid 0) client)) d).1 ≡ d')
        × (repr P (ms false) true (read_by P (ms false) drawn client)
            ≡ repr P (ms false) true client)
  unfolding commit_session commit_async completed_on commit_request lookup list_eqb
  commit_session-created file uuid types generated_id client named new drawn stored d d' t b g x c a
        l m nb s nm all pq pr =
      let mixins = ms false in
      let sid = call_id P mixins (uuid 0) client in
      let ps = create_params P mixins true client in
      let jreq = creation P mixins (uuid 0) client in
      let v = J.text (P.id stored) in
      let members = request_members sid (codes "object.repr.create") ps in
      let there : J.find_member jreq (codes "id") ≡ some (J.text sid) =
        J.find_member-object members (codes "id") in
      let read = from_repr-restores P mixins client drawn l m nb s nm all in
      let stored_there = rpc_create-stored P mixins client new drawn stored d d' g read.0 x c in
      let done = create_served P ms new broken types sid ps v d (stored, d') t refl stored_there in
      let valid = validate-request sid (codes "object.repr.create") ps in
      let full = J.is_null-text (P.id stored) in
      let single : J.is_array jreq ≡ false = J.is_array-object members in
      let arrived = request_arrives jreq pq single (J.is_object-object members) valid in
      let sent = served_text types jreq (assign_result jreq v) d d' arrived single done in
      let back =
        response_arrives (assign_result jreq v) pr
          (validate-assign_result jreq (J.text sid) v valid there full) in
      let taken = handled P mixins file jreq (J.text sid) (P.id stored) client named there full a in
      let returned =
        answered (over types d) jreq (assign_result jreq v) (commit_handler P mixins file) client
          sent back (ap (λ r. r.0) taken) in
      let built = creation_built P mixins (uuid 0) client in
      (
        ground (arith, b, built, returned, taken),
        ap (λ r. r.1) (completes types jreq (assign_result jreq v) d d' arrived single done),
        read.1,
      )
