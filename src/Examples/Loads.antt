-- ===== src/Examples/Loads.antt =====
-- The theorems on the objects that links name, on a vector of objects and on parsed requests.
use libinv.Prelude.{
  ◌⊎◌, ◌++◌, pos, ◌≡◌, refl, true, ℕ, List, [], ◌∷◌, Option, some, none, Bytes, codes, map, ◌==◌,
  list_eqb, nat_ord, list_ord, if◌then◌else◌, contains, lookup,
}
use libinv.Exec.{ok, err, Exec}
use libinv.Exception.{Exception}
use libinv.Extern.Concrete.TreeDb.{tree_db}
use libinv.Object.Objects.{assoc_objects_db, up_db, load_new, sticker_from_key, sticker_index}
use libinv.Object.Objects.Loaded.{load_all, assoc_objects_db-of_type}
use libinv.Association
use libinv.Extern.Concrete.Document.{document}
use libinv.Extern.Concrete.Tokenizer.{tokenizer}
use libinv.Extern.Json.{Json}
use libinv.Extern.Uuid.{Uuid}
use libinv.Index.{Ident, path}
use libinv.Hierarchical
use libinv.Hierarchical.{Hierarchical}
use libinv.Association.{assoc_ids}
use libinv.Object.Objects.{
  string_from_key, uuid_from_key, assoc_objects, down, of_type, unsaved_index,
  assoc_objects-of_type, assoc_objects_throws,
}
use libinv.Mixins.{Mixin}
use libinv.Mixins.Standard.{associative, kv}
use libinv.JsonRpc.{
  invalid_use, parse_request, validate_request, validate_each, validate_single_request, validate_id,
  has_member, member_is, validate_version,
}
use libinv.JsonRpc.Request.{request, id_string}
use libinv.SharedVector
use libinv.SharedVector.Got.{get-each_gets}
use libinv.Mixins.Repr.{repr}
use libinv.JsonRpc.{
  parse_response, validate_response, validate_single_response, validate_outcome, validate_error,
}
use libinv.JsonRpc.Reply.{check_batch}
use libinv.Object.Requests.{call_id}
use libinv.JsonRpc.Forms.{
  parse_request_one_form, single_of, batch_of, not_batch, not_single, foreach, each,
}
use libinv.SharedVector.{Store, get_async, empty_batch}
use libinv.SharedVector.Batch.{each_gets}
use libinv.Examples.Data.{left, right}
use libinv.Examples.Things.{Thing, blank, named, things, thing_links, thing_attributes, left_there}

abbrev linked_to : List Ident
linked_to = left ∷ record { type = codes "disc"; id = codes "c" } ∷ right ∷ []

abbrev above : Hierarchical
above = record Hierarchical.fresh { down_ids = map path linked_to }

assoc_objects-of_type_example :
    (assoc_objects (string_from_key (codes "x")) (codes "box") (map path linked_to)
      ≡ ok (map unsaved_index (of_type (codes "box") linked_to)))
    × (down (string_from_key (codes "x")) above ≡ ok (map unsaved_index linked_to))
    × (assoc_objects (sticker_from_key (codes "x")) (codes "box") (map path linked_to)
        ≡ ok (map sticker_index (of_type (codes "box") linked_to)))
assoc_objects-of_type_example = assoc_objects-of_type (codes "box") (codes "x") linked_to above refl

abbrev mixins : List (Mixin Thing tree_db.Db)
mixins = associative things true thing_links ∷ kv things true thing_attributes [] ∷ []

abbrev placed : Hierarchical
placed = record Hierarchical.fresh { up_id = path right }

assoc_objects_db-of_type_example :
    (assoc_objects_db things mixins blank
        (codes "box")
        (record Association.fresh { assoc = map path linked_to })
        left_there
      ≡ load_all things mixins blank (of_type (codes "box") linked_to) left_there)
    × (up_db things mixins blank placed left_there
        ≡ load_new things mixins blank right.id left_there)
assoc_objects_db-of_type_example =
    assoc_objects_db-of_type things mixins blank (codes "box")
      (record Association.fresh { assoc = map path linked_to }) placed linked_to right left_there
      refl refl

-- UUIDs whose texts begin with a `u`.
abbrev parse_u : Bytes → Option Bytes
parse_u [] = none
parse_u (x ∷ s) = if x == b'u' then some s else none

abbrev uuids : Uuid
uuids = record {
  Value = Bytes;
  unparse = λ u. b'u' ∷ u;
  parse = parse_u;
  parse-unparse = λ u. refl;
}

assoc_objects_throws_example :
    ((e : Exception) × (assoc_objects
          (uuid_from_key ⦃U = uuids⦄ [])
          (codes "disc")
          (map path (left ∷ []))
        ≡ err e))
    × (assoc_ids (codes "disc") (map path (left ∷ [])) ≡ ok [])
unfolding list_eqb
assoc_objects_throws_example = assoc_objects_throws ⦃U = uuids⦄ (codes "disc") [] left [] [] refl

-- Two objects.
boxes : ℕ → Option Thing
boxes p = if p == 0 then some (named (codes "a") blank) else some (named (codes "b") blank)

-- One uuid for each call.
uuid : ℕ → Bytes
uuid n = n ∷ []

abbrev vector : List ℕ
vector = 0 ∷ 1 ∷ []

-- The responses to the two requests: the JSON form of an object, and an error.
abbrev answers : List document.Value
answers =
    document.object (
      (codes "jsonrpc", document.text (codes "2.0"))
      ∷ (codes "id", document.text (codes "a:" ++ 0 ∷ []))
      ∷ (codes "result", repr ⦃J = document⦄ things mixins true (named (codes "a") blank))
      ∷ [])
    ∷ document.object (
        (codes "jsonrpc", document.text (codes "2.0"))
        ∷ (codes "id", document.text (codes "b:" ++ 1 ∷ []))
        ∷ (
          codes "error",
          document.object (
              (codes "ec", document.int (pos 5))
              ∷ (codes "message", document.text (codes "no"))
              ∷ []),
        )
        ∷ [])
    ∷ []

-- A parser that reads the two responses.
abbrev reading : Json
reading = record document { parse = λ s. some (document.array answers) }

abbrev read_mixins : List (Mixin ⦃J = reading⦄ Thing tree_db.Db)
read_mixins =
    associative ⦃J = reading⦄ things true thing_links
    ∷ kv ⦃J = reading⦄ things true thing_attributes []
    ∷ []

get-each_gets_example :
    SharedVector.get ⦃J = reading⦄ things read_mixins [] uuid (λ rs. ok (codes "[..]")) vector boxes
    ≡ some (
        each_gets ⦃J = reading⦄ things read_mixins [] vector
          (reading.elements (reading.array answers))
          boxes)
unfolding uuid boxes contains document id_string check_batch call_id list_eqb lookup tree_db
    parse_response validate_response validate_each validate_single_response validate_version
    validate_id validate_outcome validate_error has_member member_is
get-each_gets_example =
    get-each_gets ⦃J = reading⦄ things read_mixins [] uuid (λ rs. ok (codes "[..]")) vector boxes
      (codes "[..]") (reading.array answers)
      ((named (codes "a") blank, refl), ((named (codes "b") blank, refl), tt)) (refl, (refl, tt))
      (λ rs. refl) refl refl (refl, refl, (refl, refl, tt))

-- A parser that knows one text.
abbrev batch : document.Value
batch = document.array (
    request (codes "1") (codes "object.remove") []
    ∷ request (codes "2") (codes "object.clear") []
    ∷ [])

abbrev known : Json
known = record document { parse = λ s. if list_eqb s (codes "[..]") then some batch else none }

collect : document.Value → Exec (List document.Value) (Unit {0})
collect v seen = (ok tt, seen ++ v ∷ [])

parse_request_one_form_example :
    ((single_of ⦃J = known⦄ batch ≡ ok batch)
      × (batch_of ⦃J = known⦄ batch ≡ err (invalid_use not_batch)))
    ⊎ ((batch_of ⦃J = known⦄ batch ≡ ok batch)
        × (single_of ⦃J = known⦄ batch ≡ err (invalid_use not_single))
        × ((state : List document.Value)
            → foreach ⦃J = known⦄ collect batch state
              ≡ each ⦃J = known⦄ collect (known.elements batch) state))
unfolding document parse_request validate_request validate_each validate_single_request lookup
    list_eqb validate_id has_member member_is validate_version
parse_request_one_form_example =
    parse_request_one_form ⦃J = known⦄ (codes "[..]") batch collect refl
