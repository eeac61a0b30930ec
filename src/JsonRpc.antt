-- ===== src/JsonRpc.antt =====
-- source/jsonrpc.cc and source/include/jsonrpc.hh: the checks on requests and responses, and the
-- responses that the server builds. A message is its JSON value; allocators are left out.
pub mod Responses
pub mod Request
pub mod Reply
pub mod Forms
use libinv.Prelude.{
  ℕ, Bool, true, false, not, ◌&&◌, ◌||◌, List, [], ◌∷◌, ◌++◌, Bytes, codes, Option, none, some,
  is_some, ℤ, list_eqb, nat_ord, list_ord, put, without, if◌then◌else◌,
}
use libinv.Exception.{
  Exception, Class, base, runtime_error, out_of_range, ec, aborted, invalid_request_of,
  invalid_response_of, parse_error_of,
}
use libinv.Exec.{Result, ok, err, ◌>>=◌, check}
use libinv.Extern.Json.{Json}

-- gc_version
abbrev pub version : Bytes
version = codes "2.0"

-- InvalidUse
abbrev pub invalid_use : Bytes → Exception
invalid_use description = runtime_error (codes "Invalid use: " ++ description)

module _ ⦃J : Json⦄ where
  -- HasMember
  unfoldable pub has_member : J.Value → Bytes → Bool
  has_member v name = is_some (J.find_member v name)

  -- A test on the value of a member: false without the member, where the callers have tested that
  -- it is there.
  unfoldable pub member_is : (J.Value → Bool) → J.Value → Bytes → Bool
  member_is test v name = elim (J.find_member v name) [ none ↦ false | some m ↦ test m ]

  -- validate_jsonrpc_version<Exception>
  unfoldable pub validate_version : (Bytes → Exception) → J.Value → Result (Unit {0})
  unfolding has_member member_is
  validate_version throws v =
      check (has_member v (codes "jsonrpc")) (throws (codes "\"jsonrpc\" member is undefined."))
      >>= λ _.
          check (member_is J.is_text v (codes "jsonrpc"))
            (throws (codes "\"jsonrpc\" member isn't a string."))
          >>= λ _.
              check (member_is (λ m. list_eqb (J.get_text m) version) v (codes "jsonrpc"))
                (throws (codes "unsupported JSONRPC version."))

  -- validate_id<Exception>
  unfoldable pub validate_id : (Bytes → Exception) → J.Value → Bool → Result (Unit {0})
  unfolding has_member
  validate_id throws v required = elim (J.find_member v (codes "id")) [
    | some id ↦
        check (J.is_text id || J.is_int id) (throws (codes "\"id\" must be a string or an integer"))
    | none ↦ check (not required) (throws (codes "\"id\" member must be defined"))
  ]

  -- RequestBase::validate_single
  unfoldable pub validate_single_request : J.Value → Result (Unit {0})
  unfolding has_member member_is
  validate_single_request v =
      check (J.is_object v) (invalid_request_of (codes "request is not a JSON object")) >>= λ _.
      validate_version invalid_request_of v >>= λ _. validate_id invalid_request_of v false >>= λ _.
      check (has_member v (codes "method"))
        (invalid_request_of (codes "\"method\" member is undefined."))
      >>= λ _.
          check (member_is J.is_text v (codes "method"))
            (invalid_request_of (codes "\"method\" member isn't a string"))

  -- The tests on the members of an error object.
  unfoldable pub validate_error : J.Value → Result (Unit {0})
  unfolding has_member member_is
  validate_error e =
      check (J.is_object e)
        (invalid_response_of (codes "JSONRPC error (\"error\") is not an object."))
      >>= λ _.
          check (has_member e (codes "ec")) (
            invalid_response_of
              (codes "Error code (\"ec\") is not present in the JSONRPC error object."))
          >>= λ _.
              check (member_is J.is_int e (codes "ec"))
                (invalid_response_of (codes "Error code (\"ec\") is not  an integer."))
              >>= λ _.
                  check (has_member e (codes "message")) (
                    invalid_response_of (
                      codes
                        "Error message (\"message\") is not present in the JSONRPC error object."))
                  >>= λ _.
                      check (member_is J.is_text e (codes "message"))
                        (invalid_response_of (codes "Error message (\"message\") is not a string."))

  -- Either "result" or "error", and then the error object.
  unfoldable pub validate_outcome : Option J.Value → Option J.Value → Result (Unit {0})
  unfolding validate_error
  validate_outcome (some r) none = ok tt
  validate_outcome none (some e) = validate_error e
  validate_outcome _ _ =
      err (invalid_response_of (codes "Either \"result\" or \"error\" member must be present."))

  -- ResponseBase::validate_single
  unfoldable pub validate_single_response : J.Value → Result (Unit {0})
  unfolding validate_outcome
  validate_single_response v =
      check (J.is_object v) (invalid_response_of (codes "response is not a JSON object")) >>= λ _.
      validate_version invalid_response_of v >>= λ _.
      validate_id invalid_response_of v true >>= λ _.
      validate_outcome (J.find_member v (codes "result")) (J.find_member v (codes "error"))

  unfoldable pub validate_each : (J.Value → Result (Unit {0})) → List J.Value → Result (Unit {0})
  validate_each validate [] = ok tt
  validate_each validate (v ∷ vs) = validate v >>= λ _. validate_each validate vs

  -- RequestBase::validate
  unfoldable pub validate_request : J.Value → Result (Unit {0})
  unfolding validate_each
  validate_request v =
      if J.is_array v
      then validate_each validate_single_request (J.elements v)
      else if J.is_object v
      then validate_single_request v
      else err (invalid_request_of (codes "the request must be an object or an array"))

  -- ResponseBase::validate
  unfoldable pub validate_response : J.Value → Result (Unit {0})
  unfolding validate_each
  validate_response v =
      if J.is_array v
      then validate_each validate_single_response (J.elements v)
      else if J.is_object v
      then validate_single_response v
      else err (invalid_response_of (codes "the response must be an object or an array"))

  -- JSONRPCBase::parse with Request::parse, Response::parse
  unfoldable pub parse_request : Bytes → Result J.Value
  parse_request text = elim (J.parse text) [
    | none ↦ err (parse_error_of text)
    | some v ↦ validate_request v >>= λ _. ok v
  ]

  unfoldable pub parse_response : Bytes → Result J.Value
  parse_response text = elim (J.parse text) [
    | none ↦ err (parse_error_of text)
    | some v ↦ validate_response v >>= λ _. ok v
  ]

  -- SingleRequest::is_notification
  unfoldable pub is_notification : J.Value → Bool
  unfolding has_member
  is_notification request = not (has_member request (codes "id"))

  -- SingleRequest::id()
  unfoldable pub request_id : J.Value → Result J.Value
  request_id request = elim (J.find_member request (codes "id")) [
    | none ↦ err (invalid_use (codes "Called id() on an object without one."))
    | some id ↦ ok id
  ]

  -- add_error: the members of an exception with its error code
  unfoldable pub error_object : Class → Bytes → J.Value
  error_object c message =
      J.object ((codes "ec", J.int (ec c)) ∷ (codes "message", J.text message) ∷ [])

  -- SingleResponse::assign(e)
  unfoldable pub assign_error : Class → Bytes → J.Value
  unfolding error_object
  assign_error c message =
      J.object ((codes "jsonrpc", J.text version) ∷ (codes "error", error_object c message) ∷ [])

  -- SingleResponse::assign(request, result)
  unfoldable pub assign_result : J.Value → J.Value → J.Value
  assign_result request result = elim (J.find_member request (codes "id")) [
    | none ↦ J.null
    | some id ↦
        if J.is_null result
        then J.null
        else J.object
            ((codes "jsonrpc", J.text version) ∷ (codes "id", id) ∷ (codes "result", result) ∷ [])
  ]

  -- SingleResponse::assign(request, e)
  unfoldable pub assign_exception : J.Value → Class → Bytes → J.Value
  unfolding error_object
  assign_exception request c message = elim (J.find_member request (codes "id")) [
    | none ↦ J.null
    | some id ↦ J.object (
        (codes "jsonrpc", J.text version)
        ∷ (codes "id", id)
        ∷ (codes "error", error_object c message)
        ∷ [])
  ]

  -- SingleResponse::empty(): MemberCount() is for objects, and its assertion fails for null.
  unfoldable pub response_empty : J.Value → Result Bool
  response_empty v = if J.is_object v then ok (no_members (J.members v)) else err aborted
    where
      no_members : List (Bytes × J.Value) → Bool
      no_members [] = true
      no_members (m ∷ ms) = false

  -- BatchResponse::push_back, on the responses so far
  unfoldable pub push_back : J.Value → List J.Value → Result (List J.Value)
  unfolding response_empty
  push_back response responses = do
    empty ← response_empty response
    ok (if empty then responses else responses ++ response ∷ [])
