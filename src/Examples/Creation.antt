-- ===== src/Examples/Creation.antt =====
-- The theorem on an object that a client commits to a server that does not have it.
use libinv.Prelude.{
  ◌≡◌, refl, true, false, Bool, List, [], ◌∷◌, codes, nat_ord, list_ord, Bytes, lookup, list_eqb,
  list_lessb, insert, put, erase,
}
use libinv.Mixins.{foreach_db_backed}
use libinv.Prelude.{ap, ◌∙◌}
use libinv.Exec.{ok, Exec, pure}
use libinv.Extern.Concrete.Tokenizer.{tokenizer}
use libinv.Extern.Concrete.TreeDb.{tree_db, empty_db}
use libinv.Extern.Concrete.Document.{document}
use libinv.Index
use libinv.Index.{path, path_string}
use libinv.Key.{at, parse, string, inverted}
use libinv.Modes.{get_modes, scan_modes}
use libinv.Association
use libinv.Association.{
  associate, set_links, set_link, set_key, remove_links, link_key, link_string, scan_links, on_get,
  link_of,
}
use libinv.Container
use libinv.Container.{scan_attributes}
use libinv.Mixins.{foreach_get}
use libinv.Object.Component.{load_part, ident_of}
use libinv.Rpc.{Handler, create}
use libinv.Mixins.{Mixin}
use libinv.Mixins.Repr.{repr}
use libinv.Mixins.Standard.{associative, kv, associative-Reads, kv-Reads}
use libinv.Object.{get, clear}
use libinv.Object.Serve.{object_handler}
use libinv.Object.Session.{commit_session}
use libinv.Rpc.{complete}
use libinv.Prelude.{ℕ, []}
use libinv.Object
use libinv.Object.Handlers.{committed}
use libinv.Object.Session.Remote.{over}
use libinv.Object.Session.Created.{commit_session-created, creation, read_by}
use libinv.Examples.Data.{to_right}
use libinv.Examples.Updates.{red}
use libinv.Object.Requests.{call_id}
use libinv.JsonRpc.{assign_result}
use libinv.Extern.Json.{Json}
use libinv.Prelude.{some, is_some, if◌then◌else◌}
use libinv.Examples.Data.{right}
use libinv.Examples.Things.{
  Thing, blank, ident, named, things, thing_links, thing_links-IsPart, thing_attributes,
  thing_attributes-IsPart,
}
use libinv.Prelude.{contains}
use libinv.Modes.Repr.{modes_repr}
use libinv.Mixins.{foreach_repr}
use libinv.Mixins.Repr.{from_repr}

abbrev client : Thing
client = record blank { id = codes "a"; links = to_right; attributes = red }

uuids : ℕ → Bytes
uuids n = codes "1"

-- A writer and a parser that know two texts: those of a request and of the response to it.
abbrev local_mixins : List (Mixin Thing tree_db.Db)
local_mixins =
    associative ⦃J = document⦄ things false thing_links
    ∷ kv ⦃J = document⦄ things false thing_attributes []
    ∷ []

abbrev asked : document.Value
asked = creation ⦃J = document⦄ things local_mixins (codes "1") client

abbrev replied : document.Value
replied = assign_result asked (document.text (codes "a"))

abbrev printing : Json
printing = record document {
  print = λ v. if is_some (document.find_member v (codes "method")) then codes "?" else codes "!";
  parse = λ s. if list_eqb s (codes "?") then some asked else some replied;
}

abbrev mixins : Bool → List (Mixin ⦃J = printing⦄ Thing tree_db.Db)
mixins b =
    associative ⦃J = printing⦄ things b thing_links
    ∷ kv ⦃J = printing⦄ things b thing_attributes []
    ∷ []

abbrev broken : Exec (Thing × tree_db.Db) printing.Value
broken = pure printing.null

abbrev types : List (Bytes × Handler ⦃J = printing⦄ tree_db.Db)
types = (codes "box", object_handler ⦃J = printing⦄ things mixins blank broken) ∷ []

-- The server's object becomes the client's.
reads : read_by ⦃J = printing⦄ things (mixins false) blank client ≡ client
unfolding libinv.Mixins.Repr.from_repr repr lookup list_eqb libinv.Modes.Repr.modes_from_repr
    libinv.Modes.Repr.modes_repr libinv.Mixins.mixin_member libinv.Mixins.foreach_repr
    libinv.Association.Repr.from_repr libinv.Association.Repr.assoc_set_batch
    libinv.Association.Repr.repr libinv.Association.Repr.assoc_set_each
    libinv.Association.Repr.assoc_set_single associate insert kv associative document tokenizer
    tree_db path libinv.Container.Repr.from_repr libinv.Container.Repr.repr put Container.assign
    Association.clear parse Container.clear string
reads = refl

abbrev stored : Thing
stored = record client {
  links = record Association.fresh { assoc = path right ∷ []; db_backed = true };
  attributes = record red { db_backed = true };
}

abbrev after : tree_db.Db
unfolding tree_db
after =
    (codes "box:a.colour", codes "red")
    ∷ (codes "box:b*box:a", [])
    ∷ (codes "box:a*box:b", [])
    ∷ (codes "box:a", [])
    ∷ []

client_commits :
    Object.commit ⦃J = printing⦄ things (mixins false) (client, empty_db) ≡ (ok tt, (stored, after))
unfolding Object.commit tree_db tokenizer empty_db Index.commit libinv.Modes.commit_modes
    libinv.Mixins.foreach_commit kv associative document Association.commit Container.commit
    libinv.Object.Component.commit_part remove_links associate erase set_links insert set_link
    set_key inverted at link_key Container.remove_attributes Container.assign
    Container.set_attributes put Association.on_commit Container.on_commit lookup list_eqb
    list_lessb path_string path string parse Container.attribute_string link_string
    libinv.Modes.write_modes libinv.Modes.drop_modes
client_commits = refl

commits :
    Object.commit ⦃J = printing⦄ things
      (mixins false)
      (read_by ⦃J = printing⦄ things (mixins false) blank client, empty_db)
    ≡ (ok tt, (stored, after))
commits = rw reads client_commits

client_absent : Index.exists (ident client) empty_db ≡ false
unfolding Index.exists tree_db empty_db lookup tokenizer path_string path
client_absent = refl

not_there :
    Index.exists (ident (read_by ⦃J = printing⦄ things (mixins false) blank client)) empty_db
    ≡ false
not_there = ap (λ o. Index.exists (ident o) empty_db) reads ∙ client_absent

new_client : foreach_db_backed ⦃J = printing⦄ (mixins false) client ≡ false
unfolding foreach_db_backed associative kv associate insert
new_client = refl

commit_session-created_example :
    (commit_session ⦃J = printing⦄ things
        (mixins false)
        []
        (over ⦃J = printing⦄ types empty_db)
        uuids
        false
        true
        client
      ≡ (
        ok tt,
        some (committed ⦃J = printing⦄ things (mixins false) [] (named (codes "a") client)),
      ))
    × ((complete ⦃J = printing⦄ types
          (printing.print (creation ⦃J = printing⦄ things (mixins false) (codes "1") client))
          empty_db).1
        ≡ after)
    × (repr ⦃J = printing⦄ things
          (mixins false)
          true
          (read_by ⦃J = printing⦄ things (mixins false) blank client)
        ≡ repr ⦃J = printing⦄ things (mixins false) true client)
unfolding uuids call_id assign_result tree_db lookup list_eqb Index.exists path_string tokenizer
    path create kv associative document associate insert put foreach_repr from_repr repr contains
    Container.assign foreach_db_backed empty_db modes_repr libinv.Association.Repr.repr
    libinv.Container.Repr.repr
commit_session-created_example =
    commit_session-created ⦃J = printing⦄ things mixins broken [] uuids types false client
      (named (codes "a") client) blank blank stored empty_db after refl refl refl refl commits refl
      (record {
        modes-with_modes = λ m o. refl;
        id-with_modes = λ m o. refl;
        assigned = λ o o'. named o.id o';
        assigns = λ o o'. refl;
        id-assigned = λ o o'. refl;
        modes-assigned = λ o o'. refl;
      })
      refl tt tt (refl, (refl, tt))
      (
        associative-Reads ⦃J = printing⦄ things false thing_links client thing_links-IsPart
            (λ a o. refl) ((refl, (refl, tt)), tt) (tt, tt),
        ((λ o. refl), tt),
        (
          kv-Reads ⦃J = printing⦄ things false thing_attributes [] client thing_attributes-IsPart
              (λ a o. refl) (tt, tt),
          tt,
          tt,
        ),
      )
      refl refl
