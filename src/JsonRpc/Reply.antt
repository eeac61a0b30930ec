-- ===== src/JsonRpc/Reply.antt =====
-- SingleResponse and BatchResponse of source/include/jsonrpc.hh and source/jsonrpc.cc, as a client
-- reads them.
use libinv.Prelude.{
  ℕ, zero, suc, ◌+◌, ◌/◌, ◌%◌, ◌≡◌, Bool, false, not, List, [], ◌∷◌, ◌++◌, Bytes, codes, none, some,
  ℤ, pos, negsuc, ltb, ◌==◌, list_eqb, lookup, nat_ord, list_ord, if◌then◌else◌, arith,
}
use libinv.Exception.{Exception, Class, base, no_such_object, runtime_error, ec}
use libinv.Exec.{Result, ok, err, ◌>>=◌, check}
use libinv.Extern.Json.{Json}
use libinv.JsonRpc.{invalid_use, has_member, version, error_object, assign_exception, assign_result}

-- std::to_string of an int: eleven rounds are enough for its ten digits.
digits : ℕ → ℕ → Bytes → Bytes
digits zero n acc = acc
digits (suc fuel) n acc =
    let more = digits fuel (n / 10) ((48 + n % 10) ∷ acc) in
    if ltb n 10 then (48 + n) ∷ acc else more

unfoldable pub to_string : ℤ → Bytes
unfolding digits
to_string (pos n) = digits 11 n []
to_string (negsuc n) = codes "-" ++ digits 11 (n + 1) []

-- `case ErrorCode::NO_SUCH_OBJECT`
unfoldable pub is_no_such_object : ℤ → Bool
is_no_such_object (pos n) = false
is_no_such_object (negsuc n) = n == 31999

-- util::error_message of an ErrorCode
unfoldable pub error_text : ℤ → Bytes
error_text (pos n) = []
error_text (negsuc n) =
    if n == 32699
    then codes "Parse error"
    else if n == 32599
    then codes "Invalid request"
    else if n == 32600
    then codes "Method not found"
    else if n == 32601
    then codes "Invalid parameters"
    else if n == 32602
    then codes "Internal error"
    else []

module _ ⦃J : Json⦄ where
  -- Document::Parse, which leaves null where the text is not JSON
  unfoldable pub parsed_value : Bytes → J.Value
  parsed_value text = elim (J.parse text) [ none ↦ J.null | some v ↦ v ]

  -- check_batch, of SingleResponse, and check_single, of BatchResponse
  unfoldable pub check_batch : J.Value → Result (Unit {0})
  check_batch v =
      check (not (J.is_array v))
        (invalid_use (codes "tried to make a SingleResponse() instance out of a batch response."))

  unfoldable pub check_single : J.Value → Result (Unit {0})
  check_single v =
      check (not (J.is_object v))
        (invalid_use (codes "tried to make a BatchResponse instance out of a single response."))

  -- has_error(); has_id() and has_result() are has_member of their names.
  unfoldable pub has_error : J.Value → Bool
  unfolding has_member
  has_error v = has_member v (codes "error")

  -- error()
  unfoldable pub error : J.Value → Result J.Value
  error v = elim (J.find_member v (codes "error")) [
    | none ↦ err (invalid_use (codes "Requested a nonexistent error object."))
    | some e ↦ ok e
  ]

  -- operator[] of a value, with the null value where there is no such member
  unfoldable pub member_of : J.Value → Bytes → J.Value
  member_of v name = elim (J.find_member v name) [ none ↦ J.null | some m ↦ m ]

  -- ec()
  unfoldable pub error_code : J.Value → Result ℤ
  unfolding error member_of
  error_code v = do e ← error v; ok (J.get_int (member_of e (codes "ec")))

  -- error_message()
  unfoldable pub error_message : J.Value → Result Bytes
  unfolding error member_of
  error_message v = do e ← error v; ok (J.get_text (member_of e (codes "message")))

  -- throw_ec(), where `file` is __FILE__
  unfoldable pub throw_ec : Bytes → J.Value → Result (Unit {0})
  unfolding is_no_such_object to_string
  throw_ec file v = do
    code ← error_code v
    message ← error_message v
    err (
        if is_no_such_object code
        then base no_such_object message
        else runtime_error (
            codes "Unhandled exception: "
            ++ (file ++ (codes " (" ++ (to_string code ++ (codes "): " ++ message))))))

  -- if (resp.has_error()) resp.throw_ec();
  unfoldable pub throw_error : Bytes → J.Value → Result (Unit {0})
  unfolding has_error throw_ec
  throw_error file v = if has_error v then throw_ec file v else ok tt

  -- result()
  unfoldable pub result : J.Value → Result J.Value
  result v = elim (J.find_member v (codes "result")) [
    | none ↦ err (invalid_use (codes "Requested a nonexistent result object."))
    | some r ↦ ok r
  ]

module _ ⦃J : Json⦄ where
  -- The response to a result is no batch.
  pub assign_result-object :
      (request id value : J.Value)
      → J.find_member request (codes "id") ≡ some id
      → J.is_null value ≡ false
      → J.is_array (assign_result request value) ≡ false
  unfolding assign_result
  assign_result-object request id value h n =
      let returned : List (Bytes × J.Value) =
        (codes "jsonrpc", J.text version) ∷ (codes "id", id) ∷ (codes "result", value) ∷ [] in
      ground (arith, h, n, J.is_array-object returned)

  -- What the client throws for a class of exception of the server.
  unfoldable pub rethrown : Bytes → Class → Bytes → Exception
  unfolding is_no_such_object to_string ec
  rethrown file c message =
      if is_no_such_object (ec c)
      then base no_such_object message
      else runtime_error (
          codes "Unhandled exception: "
          ++ (file ++ (codes " (" ++ (to_string (ec c) ++ (codes "): " ++ message)))))

  -- A client reads from the server's response to a request with an id what the server put into it:
  -- from a response to an exception, the exception that the client throws for its code, with the
  -- message of the server; from one with a result that is not null, that result.
  pub response_read :
      (file : Bytes) (request id value : J.Value) (c : Class) (message : Bytes)
      → J.find_member request (codes "id") ≡ some id
      → J.is_null value ≡ false
      → (throw_error file (assign_exception request c message) ≡ err (rethrown file c message))
        × (throw_error file (assign_result request value) ≡ ok tt)
        × (result (assign_result request value) ≡ ok value)
  unfolding throw_error has_error has_member throw_ec error_code error_message error member_of
      rethrown result assign_exception assign_result error_object lookup list_eqb
  response_read file request id value c message h n =
      let thrown : List (Bytes × J.Value) =
        (codes "jsonrpc", J.text version)
        ∷ (codes "id", id)
        ∷ (codes "error", error_object c message)
        ∷ [] in
      let returned : List (Bytes × J.Value) =
        (codes "jsonrpc", J.text version) ∷ (codes "id", id) ∷ (codes "result", value) ∷ [] in
      let details : List (Bytes × J.Value) =
        (codes "ec", J.int (ec c)) ∷ (codes "message", J.text message) ∷ [] in
      (
        ground (
          arith,
          h,
          J.find_member-object thrown (codes "error"),
          J.find_member-object details (codes "ec"),
          J.find_member-object details (codes "message"),
          J.get_int-int (ec c),
          J.get_text-text message,
        ),
        ground (arith, h, n, J.find_member-object returned (codes "error")),
        ground (arith, h, n, J.find_member-object returned (codes "result")),
      )
