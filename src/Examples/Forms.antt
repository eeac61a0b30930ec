-- ===== src/Examples/Forms.antt =====
-- The theorems on JSON forms, on requests and on what holds of the links, at concrete objects.
use libinv.Prelude.{
  ◌≡◌, refl, true, false, List, [], ◌∷◌, codes, nat_ord, list_ord, arith, lookup, list_eqb, put,
}
use libinv.Exec.{ok, err}
use libinv.Exception.{no_such_object}
use libinv.Extern.Concrete.Tokenizer.{tokenizer}
use libinv.Extern.Concrete.TreeDb.{tree_db}
use libinv.Extern.Concrete.Document.{document}
use libinv.Index.{path}
use libinv.Modes
use libinv.Modes.{set_mode}
use libinv.Association
use libinv.Association.{associate, disassociate}
use libinv.Association.Consistent.{
  IsConsistent, Changes-IsConsistent, changed, new, associates, disassociates,
}
use libinv.JsonRpc.{assign_exception, assign_result}
use libinv.JsonRpc.Request.{request}
use libinv.JsonRpc.Reply.{throw_error, result, rethrown, response_read}
use libinv.Mixins.{Mixin}
use libinv.Mixins.Repr.{repr, from_repr}
use libinv.Mixins.RoundTrip.{from_repr-restores}
use libinv.Mixins.Standard.{associative, kv, associative-Reads, kv-Reads}
use libinv.Object.{rpc_remove, rpc_clear}
use libinv.Object.Methods.{Throws}
use libinv.Object.Requests.{
  Builds, builders-Builds, built_removal-Throws, build_get_request, build_create_request,
  build_clear_request, build_remove_request, build_mode_update_request, address, create_params,
  mode_update_params,
}
use libinv.Examples.Data.{left, right, to_right}
use libinv.Examples.Things.{
  Thing, blank, things, things-IsIndexed, thing_links, thing_links-IsPart, thing_attributes,
  thing_attributes-IsPart, left_there,
}
use libinv.Examples.Updates.{red}
use libinv.Prelude.{insert}
use libinv.Prelude.{contains}
use libinv.Container.{assign}

abbrev mixins : List (Mixin Thing tree_db.Db)
mixins = associative things false thing_links ∷ kv things false thing_attributes [] ∷ []

abbrev pub thing : Thing
thing = record blank {
  id = codes "a";
  modes = set_mode (codes "guest") 421 Modes.fresh;
  links = to_right;
  attributes = red;
}

from_repr-restores_example :
    ((from_repr things mixins (repr things mixins true thing) blank).0 ≡ ok tt)
    × (repr things mixins true (from_repr things mixins (repr things mixins true thing) blank).1
        ≡ repr things mixins true thing)
unfolding associative kv lookup list_eqb set_mode put associate insert path contains assign
from_repr-restores_example =
    from_repr-restores things mixins thing blank things-IsIndexed refl (omega arith, tt) (tt, tt)
      (refl, (refl, tt))
      (
        associative-Reads things false thing_links thing thing_links-IsPart (λ a o. refl)
            ((refl, (refl, tt)), tt) (tt, tt),
        ((λ o. refl), tt),
        (
          kv-Reads things false thing_attributes [] thing thing_attributes-IsPart (λ a o. refl)
              (tt, tt),
          tt,
          tt,
        ),
      )

Changes-IsConsistent_example : IsConsistent (disassociate (path left) to_right)
Changes-IsConsistent_example = Changes-IsConsistent (
    changed (changed new (associates (path right) Association.fresh))
      (disassociates (path left) to_right))

abbrev mode_params : document.Value
mode_params = document.object (
    (codes "id", document.text (codes "a"))
    ∷ (codes "mode_set", document.array [])
    ∷ (codes "mode_remove", document.array [])
    ∷ [])

builders-Builds_example :
    Builds
      (build_get_request things mixins (codes "1") thing (codes "a"))
      (codes "a:1")
      (codes "object.repr.get")
      (address things mixins (codes "a"))
    × Builds
        (build_create_request things mixins (codes "1") true thing)
        (codes "a:1")
        (codes "object.repr.create")
        (create_params things mixins true thing)
    × Builds
        (build_clear_request things mixins (codes "1") thing)
        (codes "a:1")
        (codes "object.clear")
        (address things mixins (codes "a"))
    × Builds
        (build_remove_request things mixins (codes "1") thing)
        (codes "a:1")
        (codes "object.remove")
        (address things mixins (codes "a"))
    × Builds
        (build_mode_update_request things mixins (codes "1") thing)
        (codes "a:1")
        (codes "object.mode.update")
        (mode_update_params things mixins thing)
unfolding libinv.Object.Requests.call_id
builders-Builds_example = builders-Builds things mixins (codes "1") true thing (codes "a")

built_removal-Throws_example :
    Throws things mixins (
      rpc_remove things mixins
        (document.object (address things mixins (codes "a")))
        (blank, left_there))
    × ((rpc_remove things mixins
          (document.object (address things mixins (codes "a")))
          (blank, left_there)).1.1
        ≡ left_there)
    × Throws things mixins (
        rpc_clear things mixins
          (document.object (address things mixins (codes "a")))
          (blank, left_there))
    × ((rpc_clear things mixins
          (document.object (address things mixins (codes "a")))
          (blank, left_there)).1.1
        ≡ left_there)
built_removal-Throws_example = built_removal-Throws things mixins (codes "a") (blank, left_there)

abbrev asked : document.Value
asked = request (codes "a:1") (codes "object.repr.get") []

abbrev red_text : document.Value
red_text = document.text (codes "red")

response_read_example :
    (throw_error [] (assign_exception asked no_such_object (codes "gone"))
      ≡ err (rethrown [] no_such_object (codes "gone")))
    × (throw_error [] (assign_result asked red_text) ≡ ok tt)
    × (result (assign_result asked red_text) ≡ ok red_text)
unfolding document lookup list_eqb
response_read_example =
    response_read [] asked (document.text (codes "a:1")) red_text no_such_object (codes "gone") refl
      refl
