-- ===== src/SharedVector.antt =====
-- source/include/shared_vector.hh: a vector of shared objects and the batch by which a client gets
-- all of them. A std::shared_ptr is the number of its object in a store, where an object that is
-- gone is `none`.
pub mod Batch
pub mod Got
use libinv.Prelude.{
  ℕ, suc, Bool, false, List, [], ◌∷◌, ◌++◌, Bytes, Option, none, some, length, ◌==◌, if◌then◌else◌,
}
use libinv.Exec.{Result, ok, err, Exec, pure, bind}
use libinv.Extern.Json.{Json}
use libinv.Client.{BatchClient, push_back, complete_batch}
use libinv.Mixins.{Mixin, Parts}
use libinv.Object.Handlers.{get_response, wrap_refcount_check}
use libinv.Object.Requests.{build_get_request}

-- m_vec
abbrev pub SharedVector : Type 0
SharedVector = List ℕ

-- push_back(object); clear() leaves the empty vector
unfoldable pub add : ℕ → SharedVector → SharedVector
add object vec = vec ++ object ∷ []

unfoldable pub size : SharedVector → ℕ
size vec = length vec

-- foreach(cb)
unfoldable pub foreach :
    {St : Type 0} → (ℕ → Exec St (Unit {0})) → SharedVector → Exec St (Unit {0})
foreach cb [] = pure tt
foreach cb (p ∷ vec) = bind (cb p) λ _. foreach cb vec

abbrev pub Store : Type 0 → Type 0
Store Obj = ℕ → Option Obj

-- A handler of the object p, which may be gone.
unfoldable pub on_object : {Obj : Type 0} → ℕ → Exec Obj (Unit {0}) → Exec (Store Obj) (Unit {0})
unfolding wrap_refcount_check
on_object p act st =
    let r = wrap_refcount_check act (st p) in (r.0, λ q. if q == p then r.1 else st q)

module _ ⦃J : Json⦄ {Obj Db : Type 0} (P : Parts Obj Db) (ms : List (Mixin Obj Db))
    (file : Bytes) where
  -- build_batch_get_async_handler
  unfoldable pub batch_get_handler : ℕ → J.Value → Exec (Store Obj) (Unit {0})
  unfolding on_object
  batch_get_handler p response = on_object p (get_response P ms file response)

  -- get_async: the batch with the request and the handler of each object, in the order of the
  -- vector. Each object draws a uuid. `none` is a call through a null pointer.
  unfoldable pub get_async :
      (ℕ → Bytes)
      → SharedVector
      → Store Obj
      → BatchClient (Store Obj)
      → Option (Result (BatchClient (Store Obj)))
  unfolding batch_get_handler
  get_async uuid [] st b = some (ok b)
  get_async uuid (p ∷ vec) st b = elim (st p) [
    | none ↦ none
    | some o ↦ elim (build_get_request P ms (uuid 0) o (P.id o)) [
      | err e ↦ some (err e)
      | ok jgetreq ↦ elim (push_back jgetreq (batch_get_handler p) b) [
        | none ↦ none
        | some (err e) ↦ some (err e)
        | some (ok b') ↦ get_async (λ n. uuid (suc n)) vec st b'
      ]
    ]
  ]

  -- BatchClientRequest(session), with nothing pushed
  abbrev pub empty_batch : BatchClient (Store Obj)
  empty_batch = record {
    requests = some [];
    handlers = [];
    batch_cbs = [];
    batch_response = none;
    batch_promised = false;
  }

  -- get(session): the batch is sent and its responses are dispatched
  unfoldable pub get :
      (ℕ → Bytes)
      → (List J.Value → Result Bytes)
      → SharedVector
      → Store Obj
      → Option (Result (Unit {0}) × Store Obj)
  unfolding get_async complete_batch
  get uuid call vec st = elim (get_async uuid vec st empty_batch) [
    | none ↦ none
    | some (err e) ↦ some (err e, st)
    | some (ok b) ↦ let done = complete_batch call (b, st) in some (done.0, done.1.1)
  ]
