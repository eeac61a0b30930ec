-- ===== src/Examples/Records.antt =====
-- The theorems on modes, attributes and index records, at a database in memory.
use libinv.Prelude.{
  ◌≡◌, ℕ, ◌<◌, refl, false, List, [], ◌∷◌, Bytes, codes, some, arith, lookup, put, list_eqb,
  nat_ord, list_ord,
}
use libinv.Exception.{runtime_error}
use libinv.Exec.{ok, err}
use libinv.Extern.Concrete.Tokenizer.{tokenizer}
use libinv.Extern.Concrete.TreeDb.{tree_db, empty_db, tree_db-IsReliable}
use libinv.Index.{Ident, path, exists, remove, generate_id}
use libinv.Index
use libinv.Index.Identity.{is_empty, all_plain, is_separator}
use libinv.Index.Records.{generate_id-unused, has_unused}
use libinv.Container.{Container, assign, remove_attribute, attribute_string}
use libinv.Container
use libinv.Container.Commit.{unsaved_removal_throws}
use libinv.Container.RoundTrip.{get-commit_attribute}
use libinv.Examples.Links.{left-IsClean, empty_db-WellKeyed}
use libinv.Modes.{Modes, set_mode, remove_mode, commit_modes}
use libinv.Modes
use libinv.Modes.Commit.{stored_mode, stored_mode-commit_modes}
use libinv.Examples.Data.{left}

abbrev guest : Bytes
guest = codes "guest"

guest_mode : (v : ℕ) → lookup guest (set_mode guest 421 Modes.fresh).add_modes ≡ some v → v < 512
unfolding lookup set_mode put list_eqb
guest_mode v h = ground arith

stored_mode-commit_modes_example :
    stored_mode left guest (commit_modes left (set_mode guest 421 Modes.fresh) empty_db).1 ≡ 421
unfolding lookup set_mode put list_eqb
stored_mode-commit_modes_example =
    stored_mode-commit_modes left guest (set_mode guest 421 Modes.fresh) empty_db tree_db-IsReliable
      (tt, tt) guest_mode

abbrev coloured : Container
coloured = assign (codes "colour") (codes "red") Container.fresh

coloured_committed :
    (Container.commit [] left coloured empty_db).0 ≡ ok (Container.on_commit coloured)
unfolding Container.commit Container.remove_attributes assign Container.set_attributes put tree_db
coloured_committed = refl

get-commit_attribute_example :
    ((Container.get left (Container.commit [] left coloured empty_db).1 Container.fresh).0 ≡ ok tt)
    × (lookup
          (codes "colour")
          (Container.get left
            (Container.commit [] left coloured empty_db).1
            Container.fresh).1.attrs
        ≡ some (codes "red"))
unfolding lookup assign put list_eqb is_empty all_plain is_separator
get-commit_attribute_example =
    get-commit_attribute [] left (codes "colour") coloured (Container.on_commit coloured) empty_db
      left-IsClean refl (tt, tt) (refl, tt) coloured_committed empty_db-WellKeyed

abbrev stored_colour : tree_db.Db
stored_colour = (Container.commit [] left coloured empty_db).1

unsaved_removal_throws_example :
    Container.commit [] left (remove_attribute (codes "colour") coloured) empty_db
    ≡ (err (runtime_error (codes "Couldn't remove key")), empty_db)
unfolding tree_db lookup empty_db
unsaved_removal_throws_example =
    unsaved_removal_throws [] left (codes "colour") (codes "red") Container.fresh empty_db refl refl

generate_id-unused_example :
    (i : Ident) × (rest : List Bytes) × (generate_id
        (codes "box")
        (codes "a" ∷ codes "b" ∷ [])
        (Index.commit left empty_db).1
      ≡ some (i, rest))
    × (exists i (Index.commit left empty_db).1 ≡ false)
    × (i.type ≡ codes "box")
unfolding has_unused exists tree_db lookup Index.commit list_eqb Index.path_string tokenizer
    empty_db
generate_id-unused_example =
    generate_id-unused (codes "box") (codes "a" ∷ codes "b" ∷ []) (Index.commit left empty_db).1
      refl
