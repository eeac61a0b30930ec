-- ===== src/SharedVector/Got.antt =====
-- get of a vector over a session.
use libinv.Prelude.{
  ℕ, suc, ◌≡◌, refl, subst, true, false, List, [], ◌∷◌, ◌++◌, Bytes, codes, some, put, nat_ord,
  list_ord, inl, inr, Option-cases, arith,
}
use libinv.Exec.{Result, ok, err}
use libinv.Extern.Json.{Json}
use libinv.JsonRpc.{parse_response}
use libinv.JsonRpc.Request.{request}
use libinv.Client
use libinv.Client.{
  BatchClient, ResponseHandler, complete_batch, respond_batch, set_batch_value, run_callbacks,
}
use libinv.Mixins.{Mixin, Parts}
use libinv.Object.Requests.{call_id, address}
use libinv.SharedVector.{SharedVector, Store, batch_get_handler, empty_batch, get_async, get}
use libinv.SharedVector.Batch.{
  AllThere, Different, Answered, call_ids, each_gets, pushed, get_async-dispatch,
}

module _ ⦃J : Json⦄ {Obj Db : Type 0} (P : Parts Obj Db) (ms : List (Mixin Obj Db))
    (file : Bytes) where
  -- A batch that was not sent.
  abbrev Unsent : BatchClient (Store Obj) → Type 0
  Unsent b =
      ((rs : List J.Value) × (b.requests ≡ some rs))
      × (b.batch_cbs ≡ [])
      × (b.batch_promised ≡ false)

  get_async-Unsent :
      (uuid : ℕ → Bytes) (vec : SharedVector) (st : Store Obj) (b b' : BatchClient (Store Obj))
      → Unsent b
      → get_async P ms file uuid vec st b ≡ some (ok b')
      → Unsent b'
  unfolding get_async
  get_async-Unsent uuid [] st b b' u g =
      let same : b ≡ b' = ground (arith, g) in subst Unsent same u
  get_async-Unsent uuid (p ∷ vec) st b b' ((rs, e), c, q) g = elim (Option-cases (st p)) [
    | inl x ↦ absurd (ground (arith, x, g))
    | inr (o, x) ↦
        let sid = call_id P ms (uuid 0) o in
        let jreq = request sid (codes "object.repr.get") (address P ms (P.id o)) in
        let b1 : BatchClient (Store Obj) = record b {
          handlers = put sid (batch_get_handler P ms file p) b.handlers;
          requests = some (rs ++ jreq ∷ []);
        } in
        let round = pushed P ms file (uuid 0) o p b rs e in
        let more : get_async P ms file (λ k. uuid (suc k)) vec st b1 ≡ some (ok b') =
          ground (arith, x, round, g) in
        get_async-Unsent (λ k. uuid (suc k)) vec st b1 b' ((rs ++ jreq ∷ [], refl), c, q) more
  ]

  -- A reply that is an array of responses: what the dispatch of its elements comes to.
  responded :
      (b : BatchClient (Store Obj)) (reply : Bytes) (v : J.Value) (st : Store Obj)
      (done : Result (Unit {0}) × Store Obj)
      → Unsent b
      → parse_response reply ≡ ok v
      → J.is_array v ≡ true
      → Client.dispatch b.handlers (J.elements v) st ≡ done
      → let r = respond_batch reply (b, st) in (r.0, r.1.1) ≡ done
  unfolding respond_batch set_batch_value run_callbacks
  responded b reply v st (ok x, st') u p a d = ground (arith, u.1, u.2, p, a, d)
  responded b reply v st (err e, st') u p a d = ground (arith, u.1, p, a, d)

  completed :
      (call : List J.Value → Result Bytes) (b : BatchClient (Store Obj)) (reply : Bytes)
      (v : J.Value) (st : Store Obj) (done : Result (Unit {0}) × Store Obj)
      → Unsent b
      → ((rs : List J.Value) → call rs ≡ ok reply)
      → parse_response reply ≡ ok v
      → J.is_array v ≡ true
      → Client.dispatch b.handlers (J.elements v) st ≡ done
      → let r = complete_batch call (b, st) in (r.0, r.1.1) ≡ done
  unfolding complete_batch
  completed call b reply v st done u c p a d =
      let r = responded b reply v st done u p a d in ground (arith, u.0.1, c u.0.0, r)

  -- get of a vector of objects that are there: the requests are built and sent, and what comes of
  -- it is what comes of each object of the vector that takes the response at its place, one after
  -- the other, also where an object stands in the vector twice; where one throws, get throws the
  -- same, and the objects behind it stay as they were. No id is drawn twice; the session answers any
  -- requests with a text that is read as an array of single responses, which carry the ids of the
  -- requests in their order.
  pub get-each_gets :
      (uuid : ℕ → Bytes) (call : List J.Value → Result Bytes) (vec : SharedVector) (st : Store Obj)
      (reply : Bytes) (v : J.Value)
      → AllThere P ms file st vec
      → Different P ms file (call_ids P ms file uuid vec st)
      → ((rs : List J.Value) → call rs ≡ ok reply)
      → parse_response reply ≡ ok v
      → J.is_array v ≡ true
      → Answered P ms file (call_ids P ms file uuid vec st) (J.elements v)
      → get P ms file uuid call vec st ≡ some (each_gets P ms file vec (J.elements v) st)
  unfolding get
  get-each_gets uuid call vec st reply v t n c p a r =
      let empty = empty_batch P ms file in
      let (b, built, dispatched) =
        get_async-dispatch P ms file uuid vec st st (J.elements v) t n r in
      let unsent = get_async-Unsent uuid vec st empty b (([], refl), refl, refl) built in
      let done =
        completed call b reply v st (each_gets P ms file vec (J.elements v) st) unsent c p a
          dispatched in
      ground (arith, built, done)
