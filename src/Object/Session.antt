-- ===== src/Object/Session.antt =====
-- source/include/object.hh, get, get_async, commit and commit_async over a session: the client's
-- request of an object, sent as text, and its handler on an object that may be gone by then.
pub mod Remote
pub mod Created
use libinv.Prelude.{ℕ, Bool, false, List, Bytes, Option, none, some, [], inl, inr}
use libinv.Exec.{Result, ok, err, ◌>>=◌, Exec, lift, bind}
use libinv.Extern.Json.{Json}
use libinv.Client.{SingleClient, ResponseHandler, complete_single}
use libinv.Mixins.{Mixin, Parts, foreach_db_backed}
use libinv.Object.Requests.{build_get_request}
use libinv.Object.Handlers.{
  wrap_refcount_check, get_handler, update_handler, commit_handler, commit_request,
}

module _ ⦃J : Json⦄ {Obj : Type 0} where
  -- Factory<SingleClientRequest>::create(request, session, handler)
  unfoldable pub client_request :
      J.Value → (J.Value → Exec Obj (Unit {0})) → SingleClient (Option Obj)
  client_request jreq handler = record {
    request = some (J.print jreq);
    handler = some (λ response. wrap_refcount_check (handler response));
    complete_cbs = [];
    response = none;
    promised = false;
  }

module _ ⦃J : Json⦄ {Obj Db : Type 0} (P : Parts Obj Db) (ms : List (Mixin Obj Db))
    (file : Bytes) where
  -- get_async(session, id)
  unfoldable pub get_async : Bytes → Bytes → Obj → Result (SingleClient (Option Obj))
  unfolding client_request
  get_async uuid id o = do
    jgetreq ← build_get_request P ms uuid o id
    ok (client_request jgetreq (get_handler P ms file))

  -- commit_async(session, force_push_id)
  unfoldable pub commit_async : (ℕ → Bytes) → Bool → Bool → Obj → Result (SingleClient (Option Obj))
  unfolding client_request
  commit_async uuid generated_id force_push_id o =
      commit_request P ms file uuid generated_id force_push_id o >>= λ jreq. elim jreq [
        | inl jupdatereq ↦ ok (client_request (J.array jupdatereq) (update_handler P ms file))
        | inr jsetreq ↦ ok (client_request jsetreq (commit_handler P ms file))
      ]

  -- req_handle->complete(), on the object that is there
  unfoldable pub completed_on :
      (Bytes → Result Bytes) → SingleClient (Option Obj) → Exec (Option Obj) (Unit {0})
  unfolding complete_single
  completed_on call r o = let done = complete_single call (r, o) in (done.0, done.1.1)

  -- get(session, id)
  unfoldable pub get_session :
      (Bytes → Result Bytes) → Bytes → Bytes → Obj → Result (Unit {0}) × Option Obj
  unfolding get_async completed_on
  get_session call uuid id o = bind (lift (get_async uuid id o)) (completed_on call) (some o)

  -- commit(session, force_push_id)
  unfoldable pub commit_session :
      (Bytes → Result Bytes) → (ℕ → Bytes) → Bool → Bool → Obj → Result (Unit {0}) × Option Obj
  unfolding commit_async completed_on
  commit_session call uuid generated_id force_push_id o =
      bind (lift (commit_async uuid generated_id force_push_id o)) (completed_on call) (some o)
