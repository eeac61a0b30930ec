-- ===== src/Rpc.antt =====
-- source/include/rpc.hh, the server's side of a call: its parameters, the method table of a class,
-- the dispatch of a call by namespace and type, and the answers to single and batch requests. What
-- an object does for a call is an argument here, and std::cout is left out.
pub mod Batch
pub mod Roster
use libinv.Prelude.{
  Bool, true, false, List, [], ◌∷◌, ◌++◌, Bytes, codes, Option, none, some, is_some, list_eqb,
  nat_ord, list_ord, if◌then◌else◌,
}
use libinv.Exception.{
  Exception, Class, base, out_of_range, runtime_error, aborted, invalid_request_of,
  invalid_parameters_of, no_such_method_of, no_such_type_of,
}
use libinv.Exec.{Result, ok, err, ◌>>=◌, Exec, pure, raise, lift, bind}
use libinv.Extern.Boost.{Boost}
use libinv.Extern.Json.{Json}
use libinv.Namespace
use libinv.Namespace.{Namespace, of_method}
use libinv.JsonRpc.{
  has_member, assign_error, assign_result, assign_exception, push_back, parse_request,
}

module _ ⦃J : Json⦄ where
  -- ObjectCallParams(call), of a const call: the parameters as an object
  unfoldable pub object_params : J.Value → Result J.Value
  object_params request = elim (J.find_member request (codes "params")) [
    | none ↦
        err (invalid_parameters_of (codes "\"params\" is undefined in a datamodel object call."))
    | some params ↦
        if J.is_object params
        then ok params
        else err (
            invalid_parameters_of
              (codes "\"params\" is not a JSONRPC object in a datamodel object call."))
  ]

  -- ObjectCallParams::id; no member counts as the empty text
  unfoldable pub param_id : J.Value → Result Bytes
  param_id params = elim (J.find_member params (codes "id")) [
    | none ↦ ok []
    | some id ↦
        if J.is_text id
        then ok (J.get_text id)
        else err (invalid_parameters_of (codes "object id is not a string"))
  ]

  -- ObjectCallParams::type
  unfoldable pub param_type : J.Value → Result Bytes
  param_type params = elim (J.find_member params (codes "type")) [
    | none ↦ err (invalid_parameters_of (codes "\"type\" parameter undefined"))
    | some type ↦
        if J.is_text type
        then ok (J.get_text type)
        else err (invalid_parameters_of (codes "object type is not a string"))
  ]

  -- ObjectCallParams::operator[]
  unfoldable pub param : J.Value → Bytes → Result J.Value
  param params member = elim (J.find_member params member) [
    | none ↦ err (invalid_parameters_of (codes "\"" ++ (member ++ codes "\" parameter undefined")))
    | some v ↦ ok v
  ]

module _ {A : Type 0} where
  -- MethodRoster::rpc_method_get over the table of a class
  unfoldable pub rpc_method_get : Bytes → List (Bytes × A) → Result A
  rpc_method_get name [] = err (no_such_method_of name)
  rpc_method_get name ((m, impl) ∷ ms) = if list_eqb m name then ok impl else rpc_method_get name ms

  -- MethodRoster::rpc_method_exists
  unfoldable pub rpc_method_exists : Bytes → List (Bytes × A) → Bool
  rpc_method_exists name [] = false
  rpc_method_exists name ((m, impl) ∷ ms) =
      if list_eqb m name then true else rpc_method_exists name ms

  -- Datamodel::create of datamodel.hh, over the types of the datamodel
  unfoldable pub create : Bytes → List (Bytes × A) → Result A
  create type [] = err (runtime_error (codes "NullType"))
  create type ((t, a) ∷ []) = if list_eqb t type then ok a else err (no_such_type_of type)
  create type ((t, a) ∷ u ∷ us) = if list_eqb t type then ok a else create type (u ∷ us)

  -- Datamodel::type_exists
  unfoldable pub type_exists : Bytes → List (Bytes × A) → Bool
  type_exists type [] = false
  type_exists type ((t, a) ∷ us) = if list_eqb t type then true else type_exists type us

unfoldable pub no_namespace : Bytes → Exception
no_namespace name = invalid_request_of (codes "There's no \"" ++ (name ++ codes "\" namespace."))

-- What an object of a type does for a call: rpc_call with the namespace and the request.
abbrev pub Handler : ⦃J : Json⦄ → Type 0 → Type 0
Handler ⦃J⦄ Db = Namespace → J.Value → Exec Db J.Value

module _ ⦃B : Boost⦄ ⦃J : Json⦄ where
  -- A request's namespaces(): of its method, which the check has found to be a text.
  unfoldable pub namespaces : J.Value → Namespace
  namespaces request = elim (J.find_member request (codes "method")) [
    | none ↦ of_method []
    | some method ↦ of_method (J.get_text method)
  ]

module _ ⦃B : Boost⦄ ⦃J : Json⦄ {Db : Type 0} where
  -- The catch of std::out_of_range in complete_call, and the exception thrown behind it.
  catch_range : Exception → Result J.Value × Db → Result J.Value × Db
  catch_range e (err (out_of_range s), d) = (err e, d)
  catch_range e (ok v, d) = (ok v, d)
  catch_range e (err (base c s), d) = (err (base c s), d)
  catch_range e (err (runtime_error s), d) = (err (runtime_error s), d)
  catch_range e (err aborted, d) = (err aborted, d)

  -- complete_datamodel_call
  unfoldable pub complete_datamodel_call :
      List (Bytes × Handler Db) → Namespace → J.Value → Exec Db J.Value
  complete_datamodel_call types ns request = bind (lift (object_params request)) λ params.
      bind (lift (param_type params))
        λ type. bind (lift (create type types)) λ handler. handler ns request

  -- complete_call; first() and pop() stand before the try block
  unfoldable pub complete_call : List (Bytes × Handler Db) → Namespace → J.Value → Exec Db J.Value
  unfolding catch_range no_namespace
  complete_call types ns request d =
      let popped = Namespace.pop ns in
      bind (lift (Namespace.first ns))
        (λ name. bind (lift popped.0) λ _ s.
          if list_eqb name (codes "object")
          then catch_range (no_namespace name) (complete_datamodel_call types popped.1 request s)
          else raise (no_namespace name) s)
        d

  -- The try block of complete: the answer to a result or to an exception with an error code; any
  -- other exception goes on.
  unfoldable pub answer : J.Value → Result J.Value × Db → Result J.Value × Db
  answer request (ok result, d) = (ok (assign_result request result), d)
  answer request (err (base c message), d) = (ok (assign_exception request c message), d)
  answer request (err e, d) = (err e, d)

  -- SingleCall::complete
  unfoldable pub complete_single : List (Bytes × Handler Db) → J.Value → Exec Db J.Value
  complete_single types request d =
      answer request (complete_call types (namespaces request) request d)

  -- BatchCall::complete, on the responses so far
  unfoldable pub complete_batch :
      List (Bytes × Handler Db) → List J.Value → List J.Value → Exec Db (List J.Value)
  complete_batch types [] responses = pure responses
  complete_batch types (request ∷ requests) responses =
      bind (complete_single types request) λ response.
        bind (lift (push_back response responses))
          λ responses'. complete_batch types requests responses'

  complete_parsed : List (Bytes × Handler Db) → J.Value → Exec Db J.Value
  complete_parsed types v =
      if J.is_array v
      then (bind (complete_batch types (J.elements v) []) λ responses. pure (J.array responses))
      else complete_single types v

  -- ServerRequest::complete: the response that is sent. A response is always sent, also where it
  -- is null.
  unfoldable pub complete : List (Bytes × Handler Db) → Bytes → Exec Db J.Value
  unfolding complete_parsed
  complete types text d = elim (parse_request text) [
    | ok v ↦ complete_parsed types v d
    | err (base c message) ↦ (ok (assign_error c message), d)
    | err e ↦ (err e, d)
  ]
