-- ===== src/Client.antt =====
-- source/include/rpc.hh, the client's requests: SingleClientRequest and BatchClientRequest. The
-- session is an argument, an operation that sends a request and gives the response's text or throws;
-- a handler acts on a state St of the program. A smart pointer that may be empty is an Option.
pub mod Dispatch
use libinv.Prelude.{
  ℕ, zero, suc, Bool, true, false, List, [], ◌∷◌, ◌++◌, Bytes, codes, Option, none, some, is_some,
  lookup, put, nat_ord, list_ord, if◌then◌else◌,
}
use libinv.Exception.{Exception, base, out_of_range, runtime_error, aborted}
use libinv.Exec.{Result, ok, err, ◌>>=◌, Exec, pure, raise, lift, bind}
use libinv.Extern.Json.{Json}
use libinv.JsonRpc.{parse_response}
use libinv.JsonRpc.Request.{id_string}
use libinv.JsonRpc.Reply.{check_batch, parsed_value}

abbrev pub refusal : Exception
refusal = runtime_error (codes "Cowardly refusing to send an empty request.")

abbrev pub not_completed : Exception
not_completed = runtime_error (
    codes
      "Invalid use of ClientRequest class:Called jsonrpc_response() on a not yet completed request.")

-- std::promise::set_value on a promise that has its value
abbrev pub already_satisfied : Exception
already_satisfied = runtime_error (codes "Promise already satisfied")

module _ ⦃J : Json⦄ (St : Type 0) where
  -- What a handler does with a response.
  abbrev pub ResponseHandler : Type 0
  ResponseHandler = J.Value → Exec St (Unit {0})

  -- ClientRequest with the members of SingleClientRequest. A moved-from m_request, m_handler or
  -- m_response is `none`; `promised` says that m_promise has its value.
  pub record SingleClient : Type 0 where
    pub request : Option Bytes
    pub handler : Option ResponseHandler
    pub complete_cbs : List (Exec St (Unit {0}))
    pub response : Option J.Value
    pub promised : Bool

  -- The members of BatchClientRequest; m_request is the list of its requests.
  pub record BatchClient : Type 0 where
    pub requests : Option (List J.Value)
    pub handlers : List (Bytes × ResponseHandler)
    pub batch_cbs : List (Exec St (Unit {0}))
    pub batch_response : Option J.Value
    pub batch_promised : Bool

module _ {St : Type 0} where
  unfoldable pub run_callbacks : List (Exec St (Unit {0})) → Exec St (Unit {0})
  run_callbacks [] = pure tt
  run_callbacks (cb ∷ cbs) = bind cb λ _. run_callbacks cbs

module _ ⦃J : Json⦄ {St : Type 0} where
  -- push_complete_cb
  unfoldable pub push_complete_cb : Exec St (Unit {0}) → SingleClient St → SingleClient St
  push_complete_cb cb r = record r { complete_cbs = r.complete_cbs ++ cb ∷ [] }

  -- completed()
  unfoldable pub completed : SingleClient St → Bool
  completed r = is_some r.response

  -- jsonrpc_response()
  unfoldable pub jsonrpc_response : SingleClient St → Result J.Value
  jsonrpc_response r = elim r.response [ none ↦ err not_completed | some v ↦ ok v ]

  -- m_promise.set_value()
  unfoldable pub set_value : Exec (SingleClient St × St) (Unit {0})
  set_value (r, st) =
      if r.promised
      then (err already_satisfied, (r, st))
      else (ok tt, (record r { promised = true }, st))

  -- From the parsed response on: the handler, which takes the response away, and the callbacks.
  unfoldable pub handle : J.Value → Exec (SingleClient St × St) (Unit {0})
  unfolding run_callbacks
  handle v (r, st) = elim r.handler [
    | none ↦
        let called = run_callbacks r.complete_cbs st in
        (called.0, (record r { response = some v }, called.1))
    | some handler ↦
        let called = bind (handler v) (λ _. run_callbacks r.complete_cbs) st in
        (called.0, (record r { response = none }, called.1))
  ]

  -- m_response = …; m_response->parse(), which leaves a value also where it throws; and what follows but the promise
  unfoldable pub receive : Bytes → Exec (SingleClient St × St) (Unit {0})
  unfolding parsed_value handle
  receive text (r, st) =
      bind (lift (parse_response text)) handle
        (record r { response = some (parsed_value text) }, st)

  -- complete(), where the session's call gives a text or throws
  unfoldable pub complete_single : (Bytes → Result Bytes) → Exec (SingleClient St × St) (Unit {0})
  unfolding receive set_value
  complete_single call (r, st) = elim r.request [
    | none ↦ (err refusal, (r, st))
    | some text ↦ bind (lift (call text)) (λ reply. bind (receive reply) λ _. set_value) (r, st)
  ]

  -- complete_async up to call_async: what is given to the session, or nothing where it is gone
  unfoldable pub complete_async : Bool → Exec (SingleClient St) (Option Bytes)
  complete_async session r = elim r.request [
    | none ↦ (err refusal, r)
    | some text ↦ if session then (ok (some text), record r { request = none }) else (ok none, r)
  ]

  -- try, and catch (ExceptionBase &e) { ehnd(e); }
  unfoldable pub caught :
      (Exception → Exec St (Unit {0}))
      → Exec (SingleClient St × St) (Unit {0})
      → Exec (SingleClient St × St) (Unit {0})
  caught ehnd act s =
      let done = act s in
      elim done.0 [
        | ok u ↦ done
        | err (base c m) ↦ let told = ehnd (base c m) done.1.1 in (told.0, (done.1.0, told.1))
        | err (out_of_range m) ↦ done
        | err (runtime_error m) ↦ done
        | err aborted ↦ done
      ]

  -- The callback of complete_async, for a request that is still there.
  unfoldable pub respond_async :
      (Exception → Exec St (Unit {0})) → Bytes → Exec (SingleClient St × St) (Unit {0})
  unfolding caught receive set_value
  respond_async ehnd reply = bind (caught ehnd (receive reply)) λ _. set_value

  -- BatchClientRequest::push_back; without a batch request it writes through a null pointer, which
  -- is `none`
  unfoldable pub push_back :
      J.Value → ResponseHandler St → BatchClient St → Option (Result (BatchClient St))
  push_back sreq handler b = elim b.requests [
    | none ↦ none
    | some rs ↦ elim (id_string sreq) [
      | err e ↦ some (err e)
      | ok id ↦ some (
          ok (record b { handlers = put id handler b.handlers; requests = some (rs ++ sreq ∷ []) }))
    ]
  ]

  -- The loop over the responses: an id without a handler is passed over.
  unfoldable pub dispatch : List (Bytes × ResponseHandler St) → List J.Value → Exec St (Unit {0})
  dispatch handlers [] = pure tt
  dispatch handlers (v ∷ vs) = bind (lift (check_batch v >>= λ _. id_string v)) λ id.
      bind (elim (lookup id handlers) [ none ↦ pure tt | some handler ↦ handler v ])
        λ _. dispatch handlers vs

  -- m_promise.set_value() of a batch
  unfoldable pub set_batch_value : Exec (BatchClient St × St) (Unit {0})
  set_batch_value (b, st) =
      if b.batch_promised
      then (err already_satisfied, (b, st))
      else (ok tt, (record b { batch_promised = true }, st))

  -- From the response on, for complete() and complete_async() of a batch: a response that is not an
  -- array is not dispatched. Nothing is caught.
  unfoldable pub respond_batch : Bytes → Exec (BatchClient St × St) (Unit {0})
  unfolding parsed_value dispatch run_callbacks set_batch_value
  respond_batch reply (b, st) =
      let b' : BatchClient St = record b { batch_response = some (parsed_value reply) } in
      let done =
        bind (lift (parse_response reply))
          (λ v.
            bind (if J.is_array v then dispatch b.handlers (J.elements v) else pure tt)
              λ _. run_callbacks b.batch_cbs)
          st in
      bind (lift done.0) (λ _. set_batch_value) (b', done.1)

  -- complete() of a batch
  unfoldable pub complete_batch :
      (List J.Value → Result Bytes) → Exec (BatchClient St × St) (Unit {0})
  unfolding respond_batch
  complete_batch call (b, st) = elim b.requests [
    | none ↦ (err refusal, (b, st))
    | some rs ↦ bind (lift (call rs)) respond_batch (b, st)
  ]
