-- ===== src/Object/Handlers.antt =====
-- source/include/object.hh: what an object does with the response to a request of its own. `file` is
-- __FILE__, which stands in the text of an exception.
use libinv.Prelude.{
  ◌≡◌, Bool, false, not, ◌||◌, List, [], ◌∷◌, Bytes, Option, none, some, ℕ, if◌then◌else◌, arith,
  inl, inr, ◌⊎◌,
}
use libinv.Exec.{Result, Result-cases, ok, err, ◌>>=◌, Exec, pure, lift, bind}
use libinv.Exception.{Exception}
use libinv.Extern.Json.{Json}
use libinv.Modes.{on_commit}
use libinv.JsonRpc.Reply.{check_batch, check_single, throw_error, result}
use libinv.Mixins.{Mixin, Parts, foreach_on_get, foreach_on_commit, foreach_db_backed}
use libinv.Mixins.Repr.{from_repr}
use libinv.Object.{clear}
use libinv.Object.Requests.{build_update_request, build_create_request}

-- wrap_refcount_check_single, wrap_refcount_check_batch: nothing is done for an object that is gone.
unfoldable pub wrap_refcount_check :
    {Obj : Type 0} → Exec Obj (Unit {0}) → Option Obj → Result (Unit {0}) × Option Obj
wrap_refcount_check handler none = (ok tt, none)
wrap_refcount_check handler (some o) = let r = handler o in (r.0, some r.1)

module _ ⦃J : Json⦄ where
  -- The loop over the responses to an update.
  unfoldable pub throw_errors : Bytes → List J.Value → Result (Unit {0})
  throw_errors file [] = ok tt
  throw_errors file (v ∷ vs) = do _ ← check_batch v; _ ← throw_error file v; throw_errors file vs

module _ ⦃J : Json⦄ {Obj Db : Type 0} (P : Parts Obj Db) (ms : List (Mixin Obj Db))
    (file : Bytes) where
  -- on_commit of the mixins and of the object
  unfoldable pub committed : Obj → Obj
  committed o = let o' = foreach_on_commit ms o in P.with_modes (on_commit (P.modes o')) o'

  -- What both handlers of a get do with a response that is not a batch. The object is cleared
  -- before the result is read.
  unfoldable pub get_response : J.Value → Exec Obj (Unit {0})
  get_response response = bind (lift (throw_error file response)) λ _ o.
      bind (bind (lift (result response)) (from_repr P ms)) (λ _ o'. pure tt (foreach_on_get ms o'))
        (clear P ms o)

  -- build_get_async_handler
  unfoldable pub get_handler : J.Value → Exec Obj (Unit {0})
  unfolding get_response
  get_handler response = bind (lift (check_batch response)) λ _. get_response response

  -- build_update_async_handler
  unfoldable pub update_handler : J.Value → Exec Obj (Unit {0})
  unfolding committed
  update_handler response =
      bind (lift (check_single response))
        λ _. bind (lift (throw_errors file (J.elements response))) λ _ o. pure tt (committed o)

  -- build_commit_async_handler; GetString of the result is not tested
  unfoldable pub commit_handler : J.Value → Exec Obj (Unit {0})
  unfolding committed
  commit_handler response = bind (lift (check_batch response)) λ _.
      bind (lift (throw_error file response)) λ _. bind (lift (result response)) λ id o.
        elim (P.assign_id (J.get_text id) o) [ err e ↦ (err e, o) | ok o' ↦ (ok tt, committed o') ]

  -- commit_async: a batch of updates for an object of the database, and else a create request, with
  -- the id where it was not generated or is forced
  unfoldable pub commit_request : (ℕ → Bytes) → Bool → Bool → Obj → Result (List J.Value ⊎ J.Value)
  commit_request uuid generated_id force_push_id o =
      if foreach_db_backed ms o
      then (do jupdatereq ← build_update_request P ms uuid o; ok (inl jupdatereq))
      else (do
        jsetreq ← build_create_request P ms (uuid 0) (not generated_id || force_push_id) o
        ok (inr jsetreq))

module _ ⦃J : Json⦄ {Obj Db : Type 0} (P : Parts Obj Db) (ms : List (Mixin Obj Db))
    (file : Bytes) where
  -- A get, an update or a commit whose response holds an error throws that error and leaves the
  -- object as it was: what it queued stays queued, and a get does not clear it.
  pub failed_response_keeps :
      (response : J.Value) (o : Obj) (e : Exception)
      → J.is_array response ≡ false
      → throw_error file response ≡ err e
      → (get_handler P ms file response o ≡ (err e, o))
        × (commit_handler P ms file response o ≡ (err e, o))
  unfolding get_handler commit_handler check_batch
  failed_response_keeps response o e a h = (ground (arith, a, h), ground (arith, a, h))

  -- An update is done entirely or not at all in the object: where any of the responses of the batch
  -- holds an error, it throws and the object stays as it was, and otherwise the object and each mixin
  -- have nothing more to commit.
  pub update_handler-all :
      (response : J.Value) (o : Obj)
      → J.is_object response ≡ false
      → ((throw_errors file (J.elements response) ≡ ok tt)
          × (update_handler P ms file response o ≡ (ok tt, committed P ms file o)))
        ⊎ ((e : Exception) × (throw_errors file (J.elements response) ≡ err e)
            × (update_handler P ms file response o ≡ (err e, o)))
  unfolding update_handler check_single committed
  update_handler-all response o h = elim (Result-cases (throw_errors file (J.elements response))) [
    | inl (u, e) ↦ inl (e, ground (arith, h, e))
    | inr (x, e) ↦ inr (x, e, ground (arith, h, e))
  ]
