-- ===== src/Object/Fetch.antt =====
-- source/include/object.hh, get(session): a client's object asks the server for itself, and becomes
-- what the server's object is. The request, the server's answer and the handler of the response
-- follow one another as values; the text between them is the transport's.
use libinv.Prelude.{
  ℕ, ◌≡◌, refl, ◌∙◌, Bool, true, false, List, [], ◌∷◌, Bytes, codes, some, lookup, list_eqb,
  nat_ord, list_ord, Strictly, arith,
}
use libinv.Exec.{ok, Exec}
use libinv.Extern.Boost.{Boost}
use libinv.Extern.Json.{Json}
use libinv.JsonRpc.{assign_result}
use libinv.JsonRpc.Request.{request, addressed-request, request_members}
use libinv.JsonRpc.Reply.{check_batch, response_read, assign_result-object}
use libinv.Exception.{invalid_repr}
use libinv.Modes.{fresh}
use libinv.Modes.Repr.{NineBits}
use libinv.Rpc.{Handler, create, complete_single}
use libinv.Mixins.{Mixin, Parts, foreach_on_get}
use libinv.Mixins.Repr.{repr, from_repr}
use libinv.Mixins.RoundTrip.{IsIndexed, Named, AllRead, own_members, from_repr-restores}
use libinv.Object.{get, clear, rpc_get}
use libinv.Object.Component.{guard-passed}
use libinv.Object.Requests.{build_get_request, address, call_id}
use libinv.Object.Handlers.{get_handler}
use libinv.Object.Serve.{object_handler, get_served}

module _ ⦃J : Json⦄ where
  pub repr_full :
      {Obj Db : Type 0} (P : Parts Obj Db) (ms : List (Mixin Obj Db)) (o : Obj)
      → J.is_null (repr P ms true o) ≡ false
  unfolding repr
  repr_full P ms o = J.is_null-object _

module _ ⦃J : Json⦄ {Obj Db : Type 0} (P : Parts Obj Db) (ms : List (Mixin Obj Db)) where
  -- rpc_get on a new object, for one that is there.
  rpc_get-loaded :
      (c : ℕ) (id : Bytes) (new named loaded : Obj) (d d' : Db)
      → P.assign_id (c ∷ id) new ≡ ok named
      → P.exists named d ≡ true
      → get P ms (named, d) ≡ (ok tt, (loaded, d'))
      → rpc_get P ms (J.object (address P ms (c ∷ id))) (new, d)
        ≡ (ok (repr P ms true loaded), (loaded, d'))
  unfolding rpc_get lookup list_eqb
  rpc_get-loaded c id new named loaded d d' a e g =
      let passed = guard-passed P ms (address P ms (c ∷ id)) c id new named d refl a e in
      ground (arith, passed, g)

  -- What the handler of a get does with the response to an object's JSON form.
  handled :
      (file : Bytes) (jreq jid v : J.Value) (client : Obj)
      → J.find_member jreq (codes "id") ≡ some jid
      → J.is_null v ≡ false
      → (from_repr P ms v (clear P ms client)).0 ≡ ok tt
      → get_handler P ms file (assign_result jreq v) client
        ≡ (ok tt, foreach_on_get ms (from_repr P ms v (clear P ms client)).1)
  unfolding get_handler check_batch
  handled file jreq jid v client i n f =
      let read = response_read file jreq jid v invalid_repr [] i n in
      ground (arith, assign_result-object jreq jid v i n, read.1, read.2, f)

module _ ⦃B : Boost⦄ ⦃J : Json⦄ {Obj Db : Type 0} (P : Parts Obj Db)
    (ms : Bool → List (Mixin Obj Db)) (broken : Exec (Obj × Db) J.Value) where
  -- A client's object that gets itself from the server: the server accepts the request that is
  -- built, and the handler of its response returns; the client's object has then the JSON form of
  -- the object that the server loaded: id, type, modes and every mixin. The server knows the type
  -- and holds the object, whose modes are nine bits and sorted; each mixin reads its own form and
  -- leaves the others alone, and on_get changes no form.
  pub get_handler-fetched :
      (file uuid : Bytes) (types : List (Bytes × Handler Db)) (c : ℕ) (id : Bytes)
      (client new named loaded : Obj) (d d' : Db)
      → create P.type types ≡ ok (object_handler P ms new broken)
      → P.assign_id (c ∷ id) new ≡ ok named
      → P.exists named d ≡ true
      → get P (ms false) (named, d) ≡ (ok tt, (loaded, d'))
      → IsIndexed P
      → P.modes (clear P (ms false) client) ≡ fresh
      → NineBits (P.modes loaded).modes
      → Strictly (P.modes loaded).modes
      → Named (own_members P loaded) (ms false) loaded
      → AllRead P (ms false) loaded
      → ((o : Obj)
          → repr P (ms false) true (foreach_on_get (ms false) o) ≡ repr P (ms false) true o)
      → let jreq =
          request
            (call_id P (ms false) uuid client)
            (codes "object.repr.get")
            (address P (ms false) (c ∷ id)) in
        let response = assign_result jreq (repr P (ms false) true loaded) in
        (build_get_request P (ms false) uuid client (c ∷ id) ≡ ok jreq)
        × (complete_single types jreq d ≡ (ok response, d'))
        × ((get_handler P (ms false) file response client).0 ≡ ok tt)
        × (repr P (ms false) true (get_handler P (ms false) file response client).1
            ≡ repr P (ms false) true loaded)
  unfolding build_get_request lookup list_eqb
  get_handler-fetched file uuid types c id client new named loaded d d' t a e g l m b s nm all q =
      let mixins = ms false in
      let sid = call_id P mixins uuid client in
      let ps = address P mixins (c ∷ id) in
      let jreq = request sid (codes "object.repr.get") ps in
      let v = repr P mixins true loaded in
      let served =
        get_served P ms new broken types sid ps v d (loaded, d') t refl
          (rpc_get-loaded P mixins c id new named loaded d d' a e g) in
      let read = from_repr-restores P mixins loaded (clear P mixins client) l m b s nm all in
      let id_there : J.find_member jreq (codes "id") ≡ some (J.text sid) =
        J.find_member-object (request_members sid (codes "object.repr.get") ps) (codes "id") in
      let done =
        handled P mixins file jreq (J.text sid) v client id_there (repr_full P mixins loaded)
          read.0 in
      (
        addressed-request sid (codes "object.repr.get") (c ∷ id) P.type,
        served,
        rw done,
        rw done (q (from_repr P mixins v (clear P mixins client)).1 ∙ read.1),
      )
