-- ===== src/Examples/Remote.antt =====
-- The theorems on an object that a client gets from the server.
use libinv.Prelude.{
  ◌≡◌, refl, true, false, Bool, List, [], ◌∷◌, codes, nat_ord, list_ord, Bytes, lookup, list_eqb,
  list_lessb, insert, put, erase,
}
use libinv.Exec.{ok, Exec, pure}
use libinv.Extern.Concrete.Tokenizer.{tokenizer}
use libinv.Extern.Concrete.TreeDb.{tree_db, empty_db}
use libinv.Extern.Concrete.Document.{document}
use libinv.Index
use libinv.Index.{path, path_string}
use libinv.Key.{at, parse, string, prefix, local_part, remote_part, inverted, elements, good}
use libinv.Modes.{get_modes, scan_modes}
use libinv.Association
use libinv.Association.{
  associate, set_links, set_link, set_key, remove_links, link_key, link_string, scan_links, on_get,
  link_of,
}
use libinv.Container
use libinv.Container.{scan_attributes}
use libinv.Mixins.{foreach_get}
use libinv.Object.Component.{load_part, ident_of}
use libinv.Rpc.{Handler, create}
use libinv.Mixins.{Mixin}
use libinv.Mixins.Repr.{repr}
use libinv.Mixins.Standard.{associative, kv, associative-Reads, kv-Reads}
use libinv.Object.{get, clear}
use libinv.Object.Serve.{object_handler}
use libinv.Object.Session.{get_session}
use libinv.Object.Session.Remote.{get_session-fetched, over}
use libinv.Object.Requests.{address, call_id}
use libinv.JsonRpc.{assign_result}
use libinv.JsonRpc.Request.{request}
use libinv.Extern.Json.{Json}
use libinv.Prelude.{some, is_some, if◌then◌else◌}
use libinv.Examples.Data.{left, right, linked}
use libinv.Examples.Things.{
  Thing, blank, named, things, thing_links, thing_links-IsPart, thing_attributes,
  thing_attributes-IsPart,
}
use libinv.Examples.Forms.{thing}

-- A database with the object on the left and its link to the right.
abbrev stored : tree_db.Db
stored = (Index.commit left linked).1

abbrev loaded : Thing
loaded = record blank {
  id = codes "a";
  links = record Association.fresh { assoc = path right ∷ []; db_backed = true };
  attributes = record Container.fresh { db_backed = true };
}

-- A writer and a parser that know two texts: those of a request and of the response to it.
abbrev local_mixins : List (Mixin Thing tree_db.Db)
local_mixins =
    associative ⦃J = document⦄ things false thing_links
    ∷ kv ⦃J = document⦄ things false thing_attributes []
    ∷ []

abbrev asked : document.Value
asked = request (codes "a:1") (codes "object.repr.get") (address things local_mixins (codes "a"))

abbrev replied : document.Value
replied = assign_result asked (repr things local_mixins true loaded)

abbrev printing : Json
printing = record document {
  print = λ v. if is_some (document.find_member v (codes "method")) then codes "?" else codes "!";
  parse = λ s. if list_eqb s (codes "?") then some asked else some replied;
}

abbrev mixins : Bool → List (Mixin ⦃J = printing⦄ Thing tree_db.Db)
mixins b =
    associative ⦃J = printing⦄ things b thing_links
    ∷ kv ⦃J = printing⦄ things b thing_attributes []
    ∷ []

abbrev broken : Exec (Thing × tree_db.Db) printing.Value
broken = pure printing.null

abbrev types : List (Bytes × Handler ⦃J = printing⦄ tree_db.Db)
types = (codes "box", object_handler ⦃J = printing⦄ things mixins blank broken) ∷ []

loads :
    get ⦃J = printing⦄ things (mixins false) (named (codes "a") blank, stored)
    ≡ (ok tt, (loaded, stored))
unfolding get foreach_get associative kv load_part ident_of get_modes scan_modes Association.get
    scan_links on_get Container.get scan_attributes tree_db tokenizer empty_db Index.commit
    Association.commit associate set_links set_link set_key remove_links link_key link_string
    inverted local_part remote_part at parse string path path_string prefix lookup list_eqb
    list_lessb insert put erase link_of elements good Container.is_own Index.db_key_match
loads = refl

there : Index.exists left stored ≡ true
unfolding Index.exists Index.commit tree_db path_string string lookup list_eqb tokenizer path put
    list_lessb
there = refl

get_session-fetched_example :
    (o : Thing) × (get_session ⦃J = printing⦄ things
        (mixins false)
        []
        (over ⦃J = printing⦄ types stored)
        (codes "1")
        (codes "a")
        thing
      ≡ (ok tt, some o))
    × (repr ⦃J = printing⦄ things (mixins false) true o
        ≡ repr ⦃J = printing⦄ things (mixins false) true loaded)
unfolding call_id assign_result tree_db lookup list_eqb Index.exists path_string tokenizer path
    clear create libinv.Mixins.foreach_clear kv associative libinv.Modes.clear_modes
    libinv.Prelude.contains libinv.Mixins.foreach_on_get repr document libinv.Modes.Repr.modes_repr
    libinv.Mixins.foreach_repr on_get Container.on_get libinv.Association.Repr.repr
    libinv.Container.Repr.repr
get_session-fetched_example =
    get_session-fetched ⦃J = printing⦄ things mixins broken [] (codes "1") types 97 [] thing blank
      (named (codes "a") blank) loaded stored stored refl refl there loads
      (record {
        modes-with_modes = λ m o. refl;
        id-with_modes = λ m o. refl;
        assigned = λ o o'. named o.id o';
        assigns = λ o o'. refl;
        id-assigned = λ o o'. refl;
        modes-assigned = λ o o'. refl;
      })
      refl tt tt (refl, (refl, tt))
      (
        associative-Reads ⦃J = printing⦄ things false thing_links loaded thing_links-IsPart
            (λ a o. refl) ((refl, (refl, tt)), tt) (tt, tt),
        ((λ o. refl), tt),
        (
          kv-Reads ⦃J = printing⦄ things false thing_attributes [] loaded thing_attributes-IsPart
              (λ a o. refl) tt,
          tt,
          tt,
        ),
      )
      (λ o. refl) refl refl
