-- ===== src/Examples/Tree.antt =====
-- The theorem on an object that is put under another, at a database in memory.
use libinv.Prelude.{◌≡◌, refl, [], ◌∷◌, contains, nat_ord, list_ord}
use libinv.Exec.{ok}
use libinv.Extern.Concrete.Tokenizer.{tokenizer}
use libinv.Extern.Concrete.TreeDb.{tree_db, empty_db, tree_db-IsReliable}
use libinv.Index.{path}
use libinv.Index.Identity.{is_clean}
use libinv.Hierarchical.{Hierarchical, fresh, add_object, commit, on_commit, stored_up_id}
use libinv.Hierarchical.Placed.{stored_up_id-commit}
use libinv.Examples.Data.{left, right}
use libinv.Prelude.{list_eqb}
use libinv.Prelude.{insert}
use libinv.Prelude.{erase}
use libinv.Key.{empty}
use libinv.Hierarchical.{add_key}

abbrev above : Hierarchical
above = (add_object (left, fresh) (right, fresh)).0

stored_up_id-commit_example :
    ((commit left above empty_db).0 ≡ ok (on_commit above))
    × (stored_up_id right (commit left above empty_db).1 ≡ path left)
unfolding is_clean add_object path empty add_key insert erase contains list_eqb
stored_up_id-commit_example =
    stored_up_id-commit left right above (right ∷ []) empty_db tree_db-IsReliable refl refl
      (refl, tt) refl refl refl refl
