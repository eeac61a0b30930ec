-- ===== src/Examples/Clients.antt =====
-- The theorems on a client's requests, at handlers that keep what they are given.
use libinv.Prelude.{
  ◌≡◌, refl, true, false, List, [], ◌∷◌, ◌++◌, Bytes, codes, none, some, nat_ord, list_ord, lookup,
  list_eqb, put,
}
use libinv.Exec.{ok, Exec, pure, raise, bind}
use libinv.Exception.{Exception, base, invalid_repr, invalid_response}
use libinv.Extern.Concrete.Document.{document}
use libinv.JsonRpc.{assign_result}
use libinv.JsonRpc.Request.{request}
use libinv.Client.{
  SingleClient, BatchClient, ResponseHandler, push_back, dispatch, receive, respond_async,
}
use libinv.Prelude.{contains}
use libinv.Client.Dispatch.{Pushed, nothing, next, dispatch-push_back, respond_async-caught}
use libinv.JsonRpc.{validate_response}
use libinv.JsonRpc.{parse_response}
use libinv.JsonRpc.Request.{id_string}
use libinv.JsonRpc.Reply.{check_batch}
use libinv.Exception.{invalid_response_of}

-- The state of the program is the list of the values that its handlers saw.
abbrev Seen : Type 0
Seen = List document.Value

abbrev sees : ResponseHandler Seen
sees v seen = pure tt (seen ++ v ∷ [])

abbrev batch : BatchClient Seen
batch = record {
  requests = some [];
  handlers = [];
  batch_cbs = [];
  batch_response = none;
  batch_promised = false;
}

abbrev asked : document.Value
asked = request (codes "a:1") (codes "object.repr.get") []

abbrev pushed : BatchClient Seen
pushed = record batch { requests = some (asked ∷ []); handlers = (codes "a:1", sees) ∷ [] }

abbrev response : document.Value
response = assign_result asked (document.text (codes "red"))

-- A request that is pushed behind it, with a handler of its own.
abbrev behind : document.Value
behind = request (codes "b:2") (codes "object.clear") []

abbrev both : BatchClient Seen
both = record batch {
  requests = some (asked ∷ behind ∷ []);
  handlers = (codes "a:1", sees) ∷ (codes "b:2", λ v. pure tt) ∷ [];
}

behind-Pushed : Pushed pushed (codes "b:2" ∷ []) both
unfolding push_back id_string document lookup list_eqb put libinv.Prelude.list_lessb
behind-Pushed =
    next behind (λ v. pure tt) pushed both both (codes "b:2") [] refl refl (nothing both)

dispatch-push_back_example :
    dispatch both.handlers (response ∷ []) []
    ≡ bind (sees response) (λ _. dispatch both.handlers []) []
unfolding push_back id_string document lookup list_eqb put check_batch assign_result contains
dispatch-push_back_example =
    dispatch-push_back asked response [] sees batch pushed both (codes "a:1") (codes "b:2" ∷ []) []
      refl refl behind-Pushed refl refl refl

abbrev refuses : ResponseHandler Seen
refuses v = raise (base invalid_repr (codes "no"))

abbrev single : SingleClient Seen
single = record {
  request = none;
  handler = some refuses;
  complete_cbs = [];
  response = none;
  promised = false;
}

-- What the exception handler of the program does: it keeps the text.
abbrev told : Exception → Exec Seen (Unit {0})
told e seen = pure tt (document.null ∷ seen)

-- The response's check of a text that is neither an object nor an array.
abbrev complaint : Bytes
complaint = codes "Invalid JSONRPC response: the response must be an object or an array"

respond_async-caught_example :
    ((respond_async told (codes "null") (single, [])).0 ≡ ok tt)
    × ((respond_async told (codes "null") (single, [])).1.0.promised ≡ true)
    × ((respond_async told (codes "null") (single, [])).1.1 ≡ document.null ∷ [])
unfolding receive parse_response document list_eqb validate_response invalid_response_of
respond_async-caught_example =
    respond_async-caught told (codes "null") single [] invalid_response complaint refl refl refl
