-- ===== src/Examples/Codes.antt =====
-- An object with a link, an attribute and a mode, in a concrete database.
use libinv.Prelude.{
  ◌≡◌, refl, [], ◌∷◌, Bytes, codes, true, false, some, contains, lookup, nat_ord, list_ord, arith,
  put, insert, erase, list_eqb,
}
use libinv.Exec.{ok, pure}
use libinv.Extern.Concrete.Tokenizer.{tokenizer}
use libinv.Extern.Concrete.TreeDb.{tree_db, empty_db, tree_db-IsReliable}
use libinv.Extern.Concrete.Document.{document}
use libinv.Index.{path}
use libinv.Index.Identity.{is_empty, all_plain, is_separator}
use libinv.Modes.{set_mode}
use libinv.Modes
use libinv.Association.{associate}
use libinv.Association.Returns.{commit-returns}
use libinv.Container.Commit.{commit-returns_container}
use libinv.Mixins.{Parts}
use libinv.Association
use libinv.Container.{assign}
use libinv.Container
use libinv.Object
use libinv.Types.Coded.{Coded, blank, named, coded_parts, coded_mixins}
use libinv.Types.Stages.{Prepared, moded, linked}
use libinv.Types.RoundTrip.{get-commit_coded, commit_returns}
use libinv.Examples.Data.{left, right}
use libinv.Examples.Links.{left-IsClean, right-IsClean, empty_db-WellKeyed}

abbrev guest : Bytes
guest = codes "guest"

abbrev colour : Bytes
colour = codes "colour"

abbrev book : Coded
book = record {
  index = record { id = codes "a"; generated_id = true };
  modes = set_mode guest 421 Modes.fresh;
  links = associate (path right) Association.fresh;
  attributes = assign colour (codes "red") Container.fresh;
}

book-Prepared : Prepared left book.modes book.links book.attributes [] (right ∷ [])
unfolding set_mode associate assign all_plain is_separator put insert erase path
book-Prepared = record {
  clean = left-IsClean;
  removed_clean = tt;
  added_clean = (right-IsClean, tt);
  removes = refl;
  adds = refl;
  names_plain = (refl, tt);
  deleted_plain = tt;
  names_sorted = (tt, tt);
  added_handles = (refl, tt);
  removed_handles = tt;
  handles_sorted = (tt, tt);
  nine_bits = (omega arith, tt);
}

abbrev parts : Parts Coded tree_db.Db
parts = coded_parts (codes "box") [] (pure tt)

book_commits : (Object.commit parts (coded_mixins parts [] true) (book, empty_db)).0 ≡ ok tt
unfolding associate assign insert erase path put
book_commits =
    let a = Association.on_commit book.links in
    let c = Container.on_commit book.attributes in
    commit_returns (codes "box") [] (pure tt) [] true book empty_db a c tree_db-IsReliable
      (commit-returns left book.links [] (right ∷ []) (moded left book.modes empty_db)
        tree_db-IsReliable left-IsClean tt (right-IsClean, tt) refl refl tt tt)
      (commit-returns_container [] left book.attributes (linked left book.modes book.links empty_db)
        tree_db-IsReliable tt)

get-commit_coded_example :
    let done = (Object.commit parts (coded_mixins parts [] true) (book, empty_db)).1.1 in
    let loaded =
      Object.get parts (coded_mixins parts [] true) (named (codes "a") (blank []), done) in
    (libinv.Index.exists left done ≡ true)
    × (loaded.0 ≡ ok tt)
    × (loaded.1.0.index ≡ record { id = codes "a"; generated_id = false })
    × (contains (path right) loaded.1.0.links.assoc ≡ true)
    × (lookup colour loaded.1.0.attributes.attrs ≡ some (codes "red"))
    × (lookup guest loaded.1.0.modes.modes ≡ some 421)
unfolding set_mode associate assign insert erase path put lookup contains list_eqb is_empty
get-commit_coded_example =
    get-commit_coded (codes "box") [] (pure tt) [] true [] book [] (right ∷ []) empty_db right
      colour guest tree_db-IsReliable empty_db-WellKeyed book-Prepared right-IsClean refl refl
      book_commits
