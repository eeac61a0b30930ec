-- ===== src/Client/Dispatch.antt =====
-- What a client's request comes to: which handler a response reaches, when the promise gets its
-- value, and what is left of the response.
use libinv.Prelude.{
  ◌≡◌, refl, ◌∙◌, Bool, true, false, List, [], ◌∷◌, contains, Bytes, none, some, lookup, put,
  lookup-put, list_eqb_iff, nat_ord, list_ord, arith, inl, inr, Option-cases,
}
use libinv.Exception.{Exception, Class, base}
use libinv.Exec.{Result, Result-cases, ok, err, Exec, bind}
use libinv.Extern.Json.{Json}
use libinv.JsonRpc.Request.{id_string}
use libinv.JsonRpc.Reply.{check_batch}
use libinv.Client.{
  SingleClient, BatchClient, ResponseHandler, push_back, dispatch, complete_single, receive, handle,
  set_value, completed, jsonrpc_response, not_completed, respond_async, caught, complete_async,
  refusal,
}

module _ ⦃J : Json⦄ {St : Type 0} where
  -- Requests with these ids are pushed to a batch, one after the other.
  pub data Pushed : BatchClient St → List Bytes → BatchClient St → Type 0 where
    nothing : (b : BatchClient St) → Pushed b [] b
    next :
        (sreq : J.Value) (handler : ResponseHandler St) (b b' c : BatchClient St) (id : Bytes)
        (ids : List Bytes)
        → push_back sreq handler b ≡ some (ok b')
        → id_string sreq ≡ ok id
        → Pushed b' ids c
        → Pushed b (id ∷ ids) c

  pushed_handlers :
      (sreq : J.Value) (handler : ResponseHandler St) (b b' : BatchClient St) (id : Bytes)
      → push_back sreq handler b ≡ some (ok b')
      → id_string sreq ≡ ok id
      → put id handler b.handlers ≡ b'.handlers
  unfolding push_back
  pushed_handlers sreq handler b b' id p i = elim (Option-cases b.requests) [
    | inl n ↦ absurd (ground (arith, n, p))
    | inr (rs, n) ↦ ground (arith, n, i)
  ]

  -- The handler of an id stays while requests with other ids are pushed.
  kept_handler :
      (id : Bytes) (ids : List Bytes) (b c : BatchClient St)
      → Pushed b ids c
      → contains id ids ≡ false
      → lookup id c.handlers ≡ lookup id b.handlers
  unfolding contains
  kept_handler id [] b _ (nothing _) n = refl
  kept_handler id (j ∷ ids) b c (next sreq handler _ b' _ _ _ p i more) n =
      let rest = kept_handler id ids b' c more (ground (arith, n)) in
      let h = pushed_handlers sreq handler b b' j p i in
      rest
      ∙ rw (← h)
          (ground (arith, lookup-put j id handler b.handlers, list_eqb_iff j id, list_eqb_iff id j))

  -- The response to a request that was pushed to a batch goes to the handler that was pushed with
  -- it, whatever requests with other ids were pushed before and behind it, and also where an earlier
  -- request had its id; the other responses are dispatched afterwards to the same handlers, in
  -- whatever order they come, unless the handler throws.
  pub dispatch-push_back :
      (sreq v : J.Value) (vs : List J.Value) (handler : ResponseHandler St)
      (b b' c : BatchClient St) (id : Bytes) (later : List Bytes) (st : St)
      → push_back sreq handler b ≡ some (ok b')
      → id_string sreq ≡ ok id
      → Pushed b' later c
      → contains id later ≡ false
      → check_batch v ≡ ok tt
      → id_string v ≡ ok id
      → dispatch c.handlers (v ∷ vs) st ≡ bind (handler v) (λ _. dispatch c.handlers vs) st
  unfolding dispatch
  dispatch-push_back sreq v vs handler b b' c id later st p i more n checked e =
      let h = pushed_handlers sreq handler b b' id p i in
      let own : lookup id b'.handlers ≡ some handler =
        rw (← h) (ground (arith, lookup-put id id handler b.handlers, list_eqb_iff id id)) in
      let found = kept_handler id later b' c more n ∙ own in ground (arith, checked, e, found)

  -- What receive does with the promise and, where it returns, with the response.
  received :
      (reply : Bytes) (r : SingleClient St) (st : St) (handler : ResponseHandler St)
      → r.handler ≡ some handler
      → let done = receive reply (r, st) in
        (done.1.0.promised ≡ r.promised) × (done.0 ≡ ok tt → done.1.0.response ≡ none)
  unfolding receive handle
  received reply r st handler h = (ground (arith, h), ground (arith, h))

  -- A call that returns sets the promise, which had no value; where the request has a handler the
  -- response is given away to it, so that the request does not count as completed afterwards and
  -- jsonrpc_response throws.
  pub complete_single-returns :
      (call : Bytes → Result Bytes) (r : SingleClient St) (st : St) (handler : ResponseHandler St)
      → r.handler ≡ some handler
      → let done = complete_single call (r, st) in
        done.0 ≡ ok tt
        → (r.promised ≡ false)
          × (done.1.0.promised ≡ true)
          × (completed done.1.0 ≡ false)
          × (jsonrpc_response done.1.0 ≡ err not_completed)
  unfolding complete_single set_value completed jsonrpc_response
  complete_single-returns call r st handler h = elim (Option-cases r.request) [
    | inl n ↦ λ e. absurd (ground (arith, n, e))
    | inr (text, n) ↦ elim (Result-cases (call text)) [
      | inl (reply, c) ↦
          let f = received reply r st handler h in
          λ e. (
            ground (arith, n, c, f, e),
            ground (arith, n, c, f, e),
            ground (arith, n, c, f, e),
            ground (arith, n, c, f, e),
          )
      | inr (x, c) ↦ λ e. absurd (ground (arith, n, c, e))
    ]
  ]

  kept_promise :
      (reply : Bytes) (r : SingleClient St) (st : St)
      → (receive reply (r, st)).1.0.promised ≡ r.promised
  unfolding receive handle
  kept_promise reply r st = elim (Option-cases r.handler) [
    | inl h ↦ ground (arith, h)
    | inr (handler, h) ↦ ground (arith, h)
  ]

  -- The promise of an asynchronous request gets its value although what came of the response was an
  -- exception with an error code, where the exception handler takes it without throwing; what the
  -- exception handler did to the state stays. The promise had no value before.
  pub respond_async-caught :
      (ehnd : Exception → Exec St (Unit {0})) (reply : Bytes) (r : SingleClient St) (st : St)
      (c : Class) (m : Bytes)
      → r.promised ≡ false
      → (receive reply (r, st)).0 ≡ err (base c m)
      → (ehnd (base c m) (receive reply (r, st)).1.1).0 ≡ ok tt
      → let done = respond_async ehnd reply (r, st) in
        (done.0 ≡ ok tt)
        × (done.1.0.promised ≡ true)
        × (done.1.1 ≡ (ehnd (base c m) (receive reply (r, st)).1.1).1)
  unfolding respond_async caught set_value
  respond_async-caught ehnd reply r st c m p e t =
      let k = kept_promise reply r st in
      (ground (arith, p, k, e, t), ground (arith, p, k, e, t), ground (arith, p, k, e, t))

  -- An asynchronous call sends a request once: with a session the request is given away, and every
  -- further call throws and changes nothing; without one nothing is sent, no exception is thrown, and
  -- the request stays.
  pub complete_async_once :
      (r : SingleClient St) (text : Bytes) (session : Bool)
      → r.request ≡ some text
      → (complete_async true r ≡ (ok (some text), record r { request = none }))
        × (complete_async session (complete_async true r).1
            ≡ (err refusal, record r { request = none }))
        × (complete_async false r ≡ (ok none, r))
  unfolding complete_async
  complete_async_once r text session h = (ground (arith, h), ground (arith, h), ground (arith, h))
