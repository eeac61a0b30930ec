-- ===== src/Object.antt =====
-- source/include/object.hh: an object combines an index, access modes and mixins. The mixins are
-- the list of Mixins, the object's own parts come as a record. The locks are left out: each call is
-- one step.
pub mod Methods
pub mod Component
pub mod Requests
pub mod Handlers
pub mod Frames
pub mod Serve
pub mod Fetch
pub mod Session
pub mod Objects
use libinv.Prelude.{
  Bool, true, false, List, [], ◌∷◌, ◌++◌, Bytes, codes, Option, none, some, nat_ord, list_ord,
  if◌then◌else◌,
}
use libinv.Exception.{Exception, no_such_object_of, object_exists_of, invalid_parameters_of}
use libinv.Exec.{Result, ok, err, Exec, pure, raise, lift, bind}
use libinv.Extern.Json.{Json}
use libinv.Rpc.{param, param_id}
use libinv.Modes.{clear_modes, on_commit}
use libinv.Modes.Repr.{modes_from_repr, remove_modes}
use libinv.Mixins.{
  Impl, Mixin, Parts, foreach_get, foreach_commit, foreach_clear, otherwise, roster_call,
  foreach_rpc_call,
}
use libinv.Mixins.Repr.{repr, from_repr}

module _ ⦃J : Json⦄ {Obj Db : Type 0} where
  -- rpc_call: the methods of the object, and then those of the mixins
  unfoldable pub rpc_call :
      List (Bytes × Impl Obj Db)
      → List (Mixin Obj Db)
      → Bytes
      → Bytes
      → J.Value
      → Exec (Obj × Db) J.Value
  unfolding otherwise roster_call foreach_rpc_call
  rpc_call own ms path method params =
      otherwise (roster_call own path params) (foreach_rpc_call ms path method params)

  module _ (P : Parts Obj Db) (ms : List (Mixin Obj Db)) where
    unfoldable pub get : Exec (Obj × Db) (Unit {0})
    get = bind P.get_modes λ _. foreach_get ms

    unfoldable pub clear : Obj → Obj
    clear o = foreach_clear ms (P.with_modes (clear_modes (P.modes o)) o)

    unfoldable pub remove : Exec (Obj × Db) (Unit {0})
    unfolding clear
    remove (o, d) = bind (foreach_commit ms) (λ _. P.remove_index) (clear o, d)

    unfoldable pub commit : Exec (Obj × Db) (Unit {0})
    commit = bind P.commit_index λ _. bind P.commit_modes λ _.
        bind (foreach_commit ms) λ _ (o, d). pure tt (P.with_modes (on_commit (P.modes o)) o, d)

    -- rpc_get_index
    unfoldable pub rpc_get_index : J.Value → Exec (Obj × Db) (Unit {0})
    rpc_get_index params (o, d) = elim (param_id params) [
      | err e ↦ (err e, (o, d))
      | ok [] ↦ (err (invalid_parameters_of (codes "No id supplied.")), (o, d))
      | ok (c ∷ id) ↦ elim (P.assign_id (c ∷ id) o) [
        | err e ↦ (err e, (o, d))
        | ok o' ↦ (ok tt, (o', d))
      ]
    ]

    -- The guard that rpc_get, rpc_remove and rpc_clear begin with.
    unfoldable pub guard : J.Value → Exec (Obj × Db) (Unit {0})
    unfolding rpc_get_index
    guard params =
        bind (rpc_get_index params) λ _ s.
          if P.exists s.0 s.1 then pure tt s else raise (no_such_object_of P.type (P.id s.0)) s

    unfoldable pub rpc_get : J.Value → Exec (Obj × Db) J.Value
    unfolding guard get
    rpc_get params = bind (guard params) λ _. bind get λ _ s. pure (repr P ms true s.0) s

    unfoldable pub rpc_remove : J.Value → Exec (Obj × Db) J.Value
    unfolding guard get remove
    rpc_remove params = bind (guard params) λ _.
        bind (lift (param params (codes "repr")))
          λ _. bind get λ _. bind remove λ _. pure (J.text (codes "OK"))

    unfoldable pub rpc_clear : J.Value → Exec (Obj × Db) J.Value
    unfolding guard get clear commit
    rpc_clear params = bind (guard params) λ _.
        bind (lift (param params (codes "repr")))
          λ _. bind get λ _ s. bind commit (λ _. pure (J.text (codes "OK"))) (clear s.0, s.1)

    -- rpc_create: the id that is drawn may be replaced by the one of the representation
    unfoldable pub rpc_create : J.Value → Exec (Obj × Db) J.Value
    unfolding commit
    rpc_create params = bind (lift (param params (codes "repr"))) λ jrepr. bind P.generate_id λ _ s.
        let read = from_repr P ms jrepr s.0 in
        bind (lift read.0)
          (λ _ s'.
            if P.exists s'.0 s'.1
            then raise (object_exists_of P.type (P.id s'.0)) s'
            else bind commit (λ _ s''. pure (J.text (P.id s''.0)) s'') s')
          (read.1, s.1)

    -- rpc_mode_update: the modes change in the object, and no commit follows
    unfoldable pub rpc_mode_update : J.Value → Exec (Obj × Db) J.Value
    unfolding guard
    rpc_mode_update params = bind (guard params) λ _.
        bind (lift (param params (codes "mode_set"))) λ jset.
          bind (lift (param params (codes "mode_remove"))) λ jremove (o, d).
            let done = bind (modes_from_repr jset) (λ _. remove_modes jremove) (P.modes o) in
            bind (lift done.0) (λ _. pure (J.text (codes "OK"))) (P.with_modes done.1 o, d)
