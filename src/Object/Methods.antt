-- ===== src/Object/Methods.antt =====
-- Calls of an object's methods: which methods there are, and what the calls on one object need.
use libinv.Prelude.{
  ◌≡◌, refl, false, ◌||◌, List, [], ◌∷◌, ◌++◌, Bytes, codes, none, contains, nat_ord, list_ord,
  arith, inl, inr,
}
use libinv.Exception.{Exception, no_such_method_of, invalid_parameters_of}
use libinv.Exec.{Result, Result-cases, err, Exec, pure, lift, bind}
use libinv.Extern.Json.{Json}
use libinv.Rpc.{param, rpc_method_get}
use libinv.Mixins.{
  Impl, Mixin, Parts, method_names, rpc_method_list, otherwise, is_no_such_method, roster_call,
  foreach_rpc_call,
}
use libinv.Object.{
  rpc_call, guard, rpc_get_index, rpc_remove, rpc_clear, rpc_mode_update, get, remove, commit,
  clear,
}

contains-append :
    (k : Bytes) (xs ys : List Bytes) → contains k (xs ++ ys) ≡ (contains k xs || contains k ys)
unfolding contains
contains-append k [] ys = refl
contains-append k (x ∷ xs) ys = ground (arith, contains-append k xs ys)

module _ ⦃J : Json⦄ {Obj Db : Type 0} where
  rpc_method_get-missing :
      (path : Bytes) (table : List (Bytes × Impl Obj Db))
      → contains path (method_names table) ≡ false
      → rpc_method_get path table ≡ err (no_such_method_of path)
  unfolding rpc_method_get method_names contains
  rpc_method_get-missing path [] h = refl
  rpc_method_get-missing path ((name, impl) ∷ table) h =
      ground (arith, rpc_method_get-missing path table)

  foreach-missing :
      (ms : List (Mixin Obj Db)) (path method : Bytes) (params : J.Value) (s : Obj × Db)
      → contains path (rpc_method_list ms) ≡ false
      → foreach_rpc_call ms path method params s ≡ (err (no_such_method_of method), s)
  unfolding foreach_rpc_call rpc_method_list otherwise roster_call is_no_such_method
      no_such_method_of
  foreach-missing [] path method params s h = refl
  foreach-missing (m ∷ ms) path method params s h = ground (
    arith,
    contains-append path (method_names m.methods) (rpc_method_list ms),
    rpc_method_get-missing path m.methods,
    foreach-missing ms path method params s,
  )

  -- A method that is listed neither for the object nor for its mixins is called nowhere: the call
  -- throws NoSuchMethod with the method's full name, and changes neither the object nor the database.
  pub rpc_call-unlisted :
      (own : List (Bytes × Impl Obj Db)) (ms : List (Mixin Obj Db)) (path method : Bytes)
      (params : J.Value) (s : Obj × Db)
      → contains path (method_names own ++ rpc_method_list ms) ≡ false
      → rpc_call own ms path method params s ≡ (err (no_such_method_of method), s)
  unfolding rpc_call otherwise roster_call is_no_such_method no_such_method_of
  rpc_call-unlisted own ms path method params s h = ground (
    arith,
    contains-append path (method_names own) (rpc_method_list ms),
    rpc_method_get-missing path own,
    foreach-missing ms path method params s,
  )

  module _ (P : Parts Obj Db) (ms : List (Mixin Obj Db)) where
    -- The call did not return.
    abbrev pub Throws : Result J.Value × (Obj × Db) → Type 0
    Throws r = (e : Exception) × (r.0 ≡ err e)

    pub guard-db : (params : J.Value) (s : Obj × Db) → (guard P ms params s).1.1 ≡ s.1
    unfolding guard rpc_get_index
    guard-db params s = ground arith

    missing_repr :
        (params : J.Value) (s : Obj × Db) (rest : J.Value → Exec (Obj × Db) J.Value)
        → J.find_member params (codes "repr") ≡ none
        → let call = bind (guard P ms params) λ _. bind (lift (param params (codes "repr"))) rest in
          Throws (call s) × ((call s).1.1 ≡ s.1)
    unfolding param
    missing_repr params s rest h =
        let kept = guard-db params s in
        elim (Result-cases (guard P ms params s).0) [
          | inl (u, e) ↦ (
            (
              invalid_parameters_of
                  (codes "\"" ++ (codes "repr" ++ codes "\" parameter undefined")),
              ground (arith, h),
            ),
            ground (arith, kept),
          )
          | inr (x, e) ↦ ((x, ground arith), ground (arith, kept))
        ]

    -- Without a "repr" parameter rpc_remove and rpc_clear throw and leave the database as it is, also
    -- where the object is there.
    pub missing_repr-Throws :
        (params : J.Value) (s : Obj × Db)
        → J.find_member params (codes "repr") ≡ none
        → Throws (rpc_remove P ms params s)
          × ((rpc_remove P ms params s).1.1 ≡ s.1)
          × Throws (rpc_clear P ms params s)
          × ((rpc_clear P ms params s).1.1 ≡ s.1)
    unfolding rpc_remove rpc_clear param
    missing_repr-Throws params s h =
        let removal =
          missing_repr params s
            (λ _. bind (get P ms) λ _. bind (remove P ms) λ _. pure (J.text (codes "OK"))) h in
        let clearing =
          missing_repr params s
            (λ _.
              bind (get P ms)
                λ _ t. bind (commit P ms) (λ _. pure (J.text (codes "OK"))) (clear P ms t.0, t.1))
            h in
        (removal.0, removal.1, clearing.0, clearing.1)

    -- mode.update writes nothing to the database, whatever its parameters are and whether it returns
    -- or throws.
    pub rpc_mode_update_unwritten :
        (params : J.Value) (s : Obj × Db) → (rpc_mode_update P ms params s).1.1 ≡ s.1
    unfolding rpc_mode_update param
    rpc_mode_update_unwritten params s = ground (arith, guard-db params s)
