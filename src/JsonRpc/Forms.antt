-- ===== src/JsonRpc/Forms.antt =====
-- The forms of a request in source/include/jsonrpc.hh: a Request that was parsed becomes a
-- SingleRequest or a BatchRequest, whose requests are visited one by one.
use libinv.Prelude.{
  ◌≡◌, refl, sym, ap, ◌∙◌, subst, Option-cases, Bool-cases, ◌⊎◌, inl, inr, Bool, true, not, List,
  [], ◌∷◌, Bytes, codes, none, lookup, list_eqb, nat_ord, list_ord, if◌then◌else◌, arith,
}
use libinv.Exec.{Result, ok, err, ◌>>=◌, check, Exec, continue, lift, bind, pure, Result-cases}
use libinv.Exception.{Class, invalid_request_of}
use libinv.Extern.Json.{Json}
use libinv.JsonRpc.{
  invalid_use, has_member, member_is, version, validate_single_request, validate_id, validate_each,
  validate_request, parse_request, is_notification, assign_result, assign_exception,
}
use libinv.JsonRpc.Responses.{version_accepted}
use libinv.JsonRpc.Request.{request, request_members}

abbrev pub not_single : Bytes
not_single = codes "tried to make a SingleRequest() instance out of a batch request."

abbrev pub not_batch : Bytes
not_batch = codes "tried to make a BatchRequest instance out of a single request."

module _ ⦃J : Json⦄ where
  -- SingleRequest(Request &&), and SingleRequest(Value *)
  unfoldable pub single_of : J.Value → Result J.Value
  single_of v = check (not (J.is_array v)) (invalid_use not_single) >>= λ _. ok v

  -- BatchRequest(Request &&)
  unfoldable pub batch_of : J.Value → Result J.Value
  batch_of v = check (not (J.is_object v)) (invalid_use not_batch) >>= λ _. ok v

  -- The loop of BatchRequest::foreach
  unfoldable foreach_value :
      {State : Type 0} → (J.Value → Exec State (Unit {0})) → List J.Value → Exec State (Unit {0})
  unfolding single_of
  foreach_value cb [] = pure tt
  foreach_value cb (v ∷ vs) =
      bind (lift (single_of v)) (λ sreq. bind (cb sreq) (λ _. foreach_value cb vs))

  -- BatchRequest::foreach
  unfoldable pub foreach :
      {State : Type 0} → (J.Value → Exec State (Unit {0})) → J.Value → Exec State (Unit {0})
  unfolding foreach_value
  foreach cb v = foreach_value cb (J.elements v)

  -- EraseMember: the first member of the name
  unfoldable erase_member : Bytes → List (Bytes × J.Value) → List (Bytes × J.Value)
  erase_member name [] = []
  erase_member name ((k, v) ∷ ms) =
      let rest = erase_member name ms in if list_eqb k name then ms else (k, v) ∷ rest

  -- erase_id
  unfoldable pub erase_id : J.Value → J.Value
  unfolding erase_member
  erase_id v = J.object (erase_member (codes "id") (J.members v))

  -- has_params
  unfoldable pub has_params : J.Value → Bool
  unfolding has_member
  has_params v = has_member v (codes "params")

module _ ⦃J : Json⦄ where
  -- Each value in its turn.
  pub each :
      {State : Type 0} → (J.Value → Exec State (Unit {0})) → List J.Value → Exec State (Unit {0})
  each cb [] = pure tt
  each cb (v ∷ vs) = bind (cb v) (λ _. each cb vs)

  valid_single : (v : J.Value) → validate_single_request v ≡ ok tt → J.is_object v ≡ true
  unfolding validate_single_request
  valid_single v h = ground arith

  -- What passed the check is an object, or an array of objects.
  single_form : (v : J.Value) → J.is_object v ≡ true → single_of v ≡ ok v
  unfolding single_of
  single_form v h = ground (arith, J.one_kind v h)

  not_batch_form : (v : J.Value) → J.is_object v ≡ true → batch_of v ≡ err (invalid_use not_batch)
  unfolding batch_of
  not_batch_form v h = ground arith

  batch_form : (v : J.Value) → J.is_array v ≡ true → batch_of v ≡ ok v
  unfolding batch_of
  batch_form v h = ground (arith, J.one_kind v)

  not_single_form : (v : J.Value) → J.is_array v ≡ true → single_of v ≡ err (invalid_use not_single)
  unfolding single_of
  not_single_form v h = ground arith

  valid_each :
      (v : J.Value) (vs : List J.Value)
      → validate_each validate_single_request (v ∷ vs) ≡ ok tt
      → (J.is_object v ≡ true) × (validate_each validate_single_request vs ≡ ok tt)
  unfolding validate_each
  valid_each v vs h = elim (Result-cases (validate_single_request v)) [
    | inl (u, e) ↦ (valid_single v e, ground arith)
    | inr (u, e) ↦ ground arith
  ]

  continue_agrees :
      {State A B : Type 0} (r : Result A) (f g : A → Exec State B) (state : State)
      → ((a : A) (s : State) → f a s ≡ g a s)
      → continue r f state ≡ continue r g state
  continue_agrees (ok a) f g state h = h a state
  continue_agrees (err e) f g state h = refl

  visits :
      {State : Type 0} (cb : J.Value → Exec State (Unit {0})) (vs : List J.Value) (state : State)
      → validate_each validate_single_request vs ≡ ok tt
      → foreach_value cb vs state ≡ each cb vs state
  unfolding foreach_value validate_each each
  visits cb [] state h = refl
  visits cb (v ∷ vs) state h =
      let valid = valid_each v vs h in
      let rest =
        continue_agrees (cb v state).0 (λ _. foreach_value cb vs) (λ _. each cb vs) (cb v state).1
          (λ _ s. visits cb vs s valid.1) in
      ap (λ r. continue r (λ sreq. bind (cb sreq) (λ _. foreach_value cb vs)) state)
        (single_form v valid.0)
      ∙ rest

  kept : (r : Result (Unit {0})) (u v : J.Value) → (r >>= λ _. ok u) ≡ ok v → (r ≡ ok tt) × (u ≡ v)
  kept (ok _) u v h = (refl, ground arith)
  kept (err e) u v h = ground arith

  parsed_checked :
      (source : Bytes) (v : J.Value) → parse_request source ≡ ok v → validate_request v ≡ ok tt
  unfolding parse_request
  parsed_checked source v h = elim (Option-cases (J.parse source)) [
    | inl e ↦ ground arith
    | inr (u, e) ↦
        let checked : (validate_request u >>= λ _. ok u) ≡ ok v = ground arith in
        let same = kept (validate_request u) u v checked in
        subst (λ w. validate_request w ≡ ok tt) same.1 same.0
  ]

  checked_form :
      (v : J.Value)
      → validate_request v ≡ ok tt
      → ((J.is_array v ≡ true) × (validate_each validate_single_request (J.elements v) ≡ ok tt))
        ⊎ (J.is_object v ≡ true)
  unfolding validate_request
  checked_form v h = elim (Bool-cases (J.is_array v)) [
    | inl e ↦ inl (e, ground arith)
    | inr e ↦ inr (ground arith)
  ]

  -- A request that was parsed and checked converts to one of the two forms, unchanged, and the
  -- conversion to the other one throws: an object to a single request, an array to a batch, whose
  -- loop then calls the callback with each element in its turn and throws nothing of its own.
  pub parse_request_one_form :
      {State : Type 0} (source : Bytes) (v : J.Value) (cb : J.Value → Exec State (Unit {0}))
      → parse_request source ≡ ok v
      → ((single_of v ≡ ok v) × (batch_of v ≡ err (invalid_use not_batch)))
        ⊎ ((batch_of v ≡ ok v)
            × (single_of v ≡ err (invalid_use not_single))
            × ((state : State) → foreach cb v state ≡ each cb (J.elements v) state))
  unfolding parse_request foreach
  parse_request_one_form source v cb h = elim (checked_form v (parsed_checked source v h)) [
    | inl valid ↦ inr (
      batch_form v valid.0,
      not_single_form v valid.0,
      λ state. visits cb (J.elements v) state valid.1,
    )
    | inr valid ↦ inl (single_form v valid, not_batch_form v valid)
  ]

  -- A request that a builder made, without its id, passes the check of the server, is a
  -- notification and keeps its parameters, and the response to it has nothing in it, with any result
  -- and any exception.
  pub erase_id_notifies :
      (sid method : Bytes) (ps : List (Bytes × J.Value))
      → (validate_single_request (erase_id (request sid method ps)) ≡ ok tt)
        × (is_notification (erase_id (request sid method ps)) ≡ true)
        × (has_params (erase_id (request sid method ps)) ≡ true)
        × ((value : J.Value) → assign_result (erase_id (request sid method ps)) value ≡ J.null)
        × ((c : Class) (message : Bytes)
            → assign_exception (erase_id (request sid method ps)) c message ≡ J.null)
  unfolding erase_id erase_member validate_single_request validate_id has_member member_is lookup
      list_eqb is_notification has_params assign_result assign_exception
  erase_id_notifies sid method ps =
      let ms : List (Bytes × J.Value) =
        (codes "jsonrpc", J.text version)
        ∷ (codes "method", J.text method)
        ∷ (codes "params", J.object ps)
        ∷ [] in
      let no_id : J.find_member (J.object ms) (codes "id") ≡ none =
        J.find_member-object ms (codes "id") in
      let erased : erase_id (request sid method ps) ≡ J.object ms =
        ap J.object
          (ap (erase_member (codes "id")) (J.members-object (request_members sid method ps))) in
      let valid : validate_single_request (J.object ms) ≡ ok tt = ground (
        arith,
        J.is_object-object ms,
        no_id,
        J.find_member-object ms (codes "method"),
        J.is_text-text method,
        version_accepted invalid_request_of (J.object ms)
            (J.find_member-object ms (codes "jsonrpc")),
      ) in
      subst
        (λ q.
          (validate_single_request q ≡ ok tt)
          × (is_notification q ≡ true)
          × (has_params q ≡ true)
          × ((value : J.Value) → assign_result q value ≡ J.null)
          × ((c : Class) (message : Bytes) → assign_exception q c message ≡ J.null))
        (sym erased)
        (
          valid,
          ground arith,
          ground (arith, J.find_member-object ms (codes "params")),
          (λ v. ground arith),
          (λ c m. ground arith),
        )
