-- ===== src/Examples/Keys.antt =====
-- The theorems on keys, modes and hierarchies, at concrete ones.
use libinv.Prelude.{
  ◌≡◌, refl, true, List, [], ◌∷◌, Bytes, codes, some, none, arith, nat_ord, list_ord,
}
use libinv.Exec.{ok}
use libinv.Extern.Concrete.Tokenizer.{tokenizer}
use libinv.Extern.Concrete.TreeDb.{tree_db, empty_db}
use libinv.Key.{string}
use libinv.Mode.{Ownership, user, group, from_string, access, set, clear}
use libinv.Mode.Rights.{from_string-string}
use libinv.Hierarchical
use libinv.Extern.Concrete.Document.{document}
use libinv.Mixins.{Mixin}
use libinv.Association
use libinv.Container
use libinv.Mixins.Standard.{associative, kv}
use libinv.Examples.Things.{Thing, blank, named, things, thing_links, thing_attributes, thing_place}
use libinv.Hierarchical.Upward.{upward_ids, upward_ids-direct, upward_ids_loops, Chain, root, above}
use libinv.Prelude.{lookup}
use libinv.Prelude.{list_eqb}
use libinv.Mode.{field}
use libinv.Key.{up_key}
use libinv.Key.{empty}
use libinv.Key.{at}
use libinv.Hierarchical.{up_string}

from_string-string_example : from_string (libinv.Mode.string 421) 0 ≡ 421
from_string-string_example = from_string-string 421 (omega arith)

abbrev mixins : List (Mixin Thing tree_db.Db)
mixins = associative things true thing_links ∷ kv things true thing_attributes [] ∷ []

abbrev below : Thing
below = named (codes "b") blank

-- The thing of an id as get(db, id) loads it, which finds records behind the place of its own.
abbrev fetched : Bytes → Thing
fetched id = named id (record blank {
  links = record Association.fresh { db_backed = true };
  attributes = record Container.fresh { db_backed = true };
})

-- box:a is above box:b, and box:c above itself and box:d.
abbrev tree : tree_db.Db
tree =
    (tree_db.set
      (tree_db.set (tree_db.set empty_db (codes "box:b<up") (codes "box:a")).1 (codes "box:c<up")
        (codes "box:c")).1
      (codes "box:d<up") (codes "box:c")).1

below-Chain : Chain things mixins thing_place blank below tree 1 (ok tt)
unfolding libinv.Hierarchical.get list_eqb empty tree_db libinv.Prelude.put empty_db
    libinv.Prelude.list_lessb libinv.Key.prefix libinv.Index.path_string tokenizer document
    libinv.Object.Component.ident_of lookup up_string up_key libinv.Object.Objects.up_db at
    libinv.Object.Objects.load_new libinv.Object.Objects.get_by_id libinv.Modes.get_modes
    libinv.Hierarchical.down_of libinv.Hierarchical.on_get libinv.Hierarchical.scan_down
    libinv.Hierarchical.stored_up_id libinv.Index.path libinv.Key.elements libinv.Key.good
    libinv.Key.parse string libinv.Mixins.foreach_get libinv.Mode.digit from_string
    libinv.Modes.scan_modes libinv.Object.get libinv.Prelude.insert associative kv
    libinv.Object.Component.load_part libinv.Container.get libinv.Container.is_own
    libinv.Key.local_part libinv.Index.db_key_match libinv.Association.get
below-Chain =
    above below tree (fetched (codes "a")) refl refl (root (fetched (codes "a")) tree refl)

upward_ids-direct_example :
    upward_ids things mixins thing_place blank 2 below tree []
    ≡ some (ok ((codes "box" ∷ codes "a" ∷ []) ∷ []))
unfolding libinv.Hierarchical.get list_eqb empty tree_db libinv.Prelude.put empty_db
    libinv.Prelude.list_lessb libinv.Key.prefix libinv.Index.path_string tokenizer document
    libinv.Object.Component.ident_of lookup up_string up_key libinv.Object.Objects.up_db at
    libinv.Object.Objects.load_new libinv.Object.Objects.get_by_id libinv.Modes.get_modes
    libinv.Hierarchical.down_of libinv.Hierarchical.on_get libinv.Hierarchical.scan_down
    libinv.Hierarchical.stored_up_id libinv.Index.path libinv.Key.elements libinv.Key.good
    libinv.Key.parse string libinv.Mixins.foreach_get libinv.Mode.digit from_string
    libinv.Modes.scan_modes libinv.Object.get libinv.Prelude.insert associative kv
    libinv.Object.Component.load_part libinv.Container.get libinv.Container.is_own
    libinv.Key.local_part libinv.Index.db_key_match libinv.Association.get
upward_ids-direct_example =
    upward_ids-direct things mixins thing_place blank below tree 2 [] below-Chain (omega arith)

abbrev own : Thing
own = fetched (codes "c")

upward_ids_loops_example :
    upward_ids things mixins thing_place blank 100 (named (codes "d") blank) tree [] ≡ none
unfolding libinv.Hierarchical.get list_eqb empty tree_db libinv.Prelude.put empty_db
    libinv.Prelude.list_lessb libinv.Key.prefix libinv.Index.path_string tokenizer document
    libinv.Object.Component.ident_of lookup up_string up_key libinv.Object.Objects.up_db at
    libinv.Object.Objects.load_new libinv.Object.Objects.get_by_id libinv.Modes.get_modes
    libinv.Hierarchical.down_of libinv.Hierarchical.on_get libinv.Hierarchical.scan_down
    libinv.Hierarchical.stored_up_id libinv.Index.path libinv.Key.elements libinv.Key.good
    libinv.Key.parse string libinv.Mixins.foreach_get libinv.Mode.digit from_string
    libinv.Modes.scan_modes libinv.Object.get libinv.Prelude.insert associative kv
    libinv.Object.Component.load_part libinv.Container.get libinv.Container.is_own
    libinv.Key.local_part libinv.Index.db_key_match libinv.Association.get
upward_ids_loops_example =
    upward_ids_loops things mixins thing_place blank (named (codes "d") blank) own tree 100 [] refl
      refl refl refl
