-- ===== src/JsonRpc/Responses.antt =====
-- What the server answers, as the client checks it.
use libinv.Prelude.{
  ◌≡◌, refl, ◌∙◌, true, false, ◌||◌, List, [], ◌∷◌, Bytes, codes, some, lookup, nat_ord, list_ord,
  list_eqb, list_eqb_iff, arith,
}
use libinv.Exception.{Exception, Class, ec, invalid_response_of}
use libinv.Exec.{ok, err, ◌>>=◌}
use libinv.Extern.Json.{Json}
use libinv.JsonRpc.{
  version, validate_version, validate_id, validate_error, validate_outcome,
  validate_single_response, validate_single_request, assign_error, assign_result, assign_exception,
  error_object, validate_response,
}

module _ ⦃J : Json⦄ where
  pub version_accepted :
      (throws : Bytes → Exception) (v : J.Value)
      → J.find_member v (codes "jsonrpc") ≡ some (J.text version)
      → validate_version throws v ≡ ok tt
  unfolding validate_version
  version_accepted throws v h = ground (
    arith,
    h,
    J.is_text-text version,
    J.get_text-text version,
    (list_eqb_iff version version).1 refl,
  )

  -- An object with the version: what is left to check.
  checked_object :
      (ms : List (Bytes × J.Value))
      → lookup (codes "jsonrpc") ms ≡ some (J.text version)
      → validate_response (J.object ms) ≡ (
          validate_id invalid_response_of (J.object ms) true >>= λ _.
          validate_outcome (lookup (codes "result") ms) (lookup (codes "error") ms))
  unfolding validate_response validate_single_response
  checked_object ms h = ground (
    arith,
    J.is_array-object ms,
    J.is_object-object ms,
    J.find_member-object ms (codes "result"),
    J.find_member-object ms (codes "error"),
    version_accepted invalid_response_of (J.object ms)
        (J.find_member-object ms (codes "jsonrpc") ∙ h),
  )

  -- The response to a request that could not be read has no id, and the client's check refuses it.
  pub validate-assign_error :
      (c : Class) (message : Bytes)
      → validate_response (assign_error c message)
        ≡ err (invalid_response_of (codes "\"id\" member must be defined"))
  unfolding assign_error validate_id lookup list_eqb
  validate-assign_error c message =
      let ms : List (Bytes × J.Value) =
        (codes "jsonrpc", J.text version) ∷ (codes "error", error_object c message) ∷ [] in
      ground (arith, checked_object ms refl, J.find_member-object ms (codes "id"))

  -- The object of an error code and a message passes.
  error_accepted : (c : Class) (message : Bytes) → validate_error (error_object c message) ≡ ok tt
  unfolding validate_error error_object lookup list_eqb
  error_accepted c message =
      let ms : List (Bytes × J.Value) =
        (codes "ec", J.int (ec c)) ∷ (codes "message", J.text message) ∷ [] in
      ground (
        arith,
        J.is_object-object ms,
        J.find_member-object ms (codes "ec"),
        J.find_member-object ms (codes "message"),
        J.is_int-int (ec c),
        J.is_text-text message,
      )

  -- A request that passed has an id that is a string or an integer, or none.
  request_id_kind :
      (request id : J.Value)
      → validate_single_request request ≡ ok tt
      → J.find_member request (codes "id") ≡ some id
      → (J.is_text id || J.is_int id) ≡ true
  unfolding validate_single_request validate_id
  request_id_kind request id h e = ground arith

  -- The answer with a result to a request that passed the check and has an id passes the check of
  -- responses, unless the result is null.
  pub validate-assign_result :
      (request id result : J.Value)
      → validate_single_request request ≡ ok tt
      → J.find_member request (codes "id") ≡ some id
      → J.is_null result ≡ false
      → validate_response (assign_result request result) ≡ ok tt
  unfolding assign_result validate_id validate_outcome lookup list_eqb
  validate-assign_result request id result h e n =
      let ms : List (Bytes × J.Value) =
        (codes "jsonrpc", J.text version) ∷ (codes "id", id) ∷ (codes "result", result) ∷ [] in
      ground (
        arith,
        checked_object ms refl,
        J.find_member-object ms (codes "id"),
        request_id_kind request id h e,
      )

  -- So does the answer with an exception.
  pub validate-assign_exception :
      (request id : J.Value) (c : Class) (message : Bytes)
      → validate_single_request request ≡ ok tt
      → J.find_member request (codes "id") ≡ some id
      → validate_response (assign_exception request c message) ≡ ok tt
  unfolding assign_exception validate_id validate_outcome lookup list_eqb
  validate-assign_exception request id c message h e =
      let ms : List (Bytes × J.Value) =
        (codes "jsonrpc", J.text version)
        ∷ (codes "id", id)
        ∷ (codes "error", error_object c message)
        ∷ [] in
      ground (
        arith,
        checked_object ms refl,
        J.find_member-object ms (codes "id"),
        request_id_kind request id h e,
        error_accepted c message,
      )
