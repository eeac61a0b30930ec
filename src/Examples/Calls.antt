-- ===== src/Examples/Calls.antt =====
-- The theorems on requests and responses, at JSON values as trees.
use libinv.Prelude.{◌≡◌, refl, List, [], ◌∷◌, Bytes, codes, some, nat_ord, list_ord}
use libinv.Exec.{ok, err, pure}
use libinv.Exception.{aborted}
use libinv.Extern.Concrete.Tokenizer.{tokenizer}
use libinv.Extern.Concrete.TreeDb.{tree_db, empty_db}
use libinv.Extern.Concrete.Document.{document}
use libinv.JsonRpc.{assign_result, validate_response, validate_single_request}
use libinv.JsonRpc.Responses.{validate-assign_result}
use libinv.Rpc.{Handler, complete_batch}
use libinv.Rpc.Batch.{complete_batch-ids, ids, Answers}
use libinv.Rpc.{
  complete_call, complete_datamodel_call, namespaces, create, param_type, object_params,
}
use libinv.Prelude.{inl, lookup, list_eqb}
use libinv.Prelude.{lookup}
use libinv.Prelude.{list_eqb}
use libinv.JsonRpc.{validate_version}
use libinv.JsonRpc.{validate_id}
use libinv.Namespace.{pop}
use libinv.Namespace.{of_method}
use libinv.Namespace.{first}

abbrev request : document.Value
request = document.object (
    (codes "jsonrpc", document.text (codes "2.0"))
    ∷ (codes "id", document.text (codes "7"))
    ∷ (codes "method", document.text (codes "object.index.get"))
    ∷ (codes "params", document.object ((codes "type", document.text (codes "box")) ∷ []))
    ∷ [])

validate-assign_result_example :
    validate_response (assign_result request (document.text (codes "done"))) ≡ ok tt
unfolding document validate_single_request validate_version lookup list_eqb validate_id
validate-assign_result_example =
    validate-assign_result request (document.text (codes "7")) (document.text (codes "done")) refl
      refl refl

-- A datamodel whose one type answers every call with a text.
abbrev boxes : List (Bytes × Handler tree_db.Db)
boxes = (codes "box", λ ns q. pure (document.text (codes "done"))) ∷ []

request-Answers : Answers boxes request
unfolding document complete_call first namespaces lookup list_eqb of_method tokenizer pop
    complete_datamodel_call object_params param_type create
request-Answers d = inl (document.text (codes "done"), refl, refl)

abbrev notification : document.Value
notification = document.object (
    (codes "jsonrpc", document.text (codes "2.0"))
    ∷ (codes "method", document.text (codes "object.index.get"))
    ∷ (codes "params", document.object ((codes "type", document.text (codes "box")) ∷ []))
    ∷ [])

notification-Answers : Answers boxes notification
unfolding document complete_call first namespaces lookup list_eqb of_method tokenizer pop
    complete_datamodel_call object_params param_type create
notification-Answers d = inl (document.text (codes "done"), refl, refl)

complete_batch-ids_example :
    ((out : List document.Value) × ((complete_batch boxes (request ∷ []) [] empty_db).0 ≡ ok out)
      × (ids out ≡ some (document.text (codes "7")) ∷ []))
    × ((complete_batch boxes (request ∷ notification ∷ request ∷ []) [] empty_db).0 ≡ err aborted)
unfolding document lookup list_eqb
complete_batch-ids_example =
    complete_batch-ids boxes (request ∷ []) (document.text (codes "7") ∷ []) (request ∷ [])
      notification empty_db (refl, request-Answers, tt) refl notification-Answers
