-- ===== src/Examples/Links.antt =====
-- The theorems on links, at two objects and a database in memory.
use libinv.Prelude.{◌≡◌, refl, true, [], ◌∷◌, contains, insert, lookup, list_eqb, nat_ord, list_ord}
use libinv.Exec.{ok}
use libinv.Extern.Concrete.Tokenizer.{tokenizer}
use libinv.Extern.Concrete.TreeDb.{tree_db, empty_db}
use libinv.Index.{path}
use libinv.Index.Identity.{IsClean, is_clean}
use libinv.Association.{
  fresh, associate, commit, on_commit, get, set_links, remove_links, set_link, remove_link, set_key,
  remove_key,
}
use libinv.Association.RoundTrip.{get-commit, commit-WellKeyed, second_disassociation_throws}
use libinv.Association.Commit.{couldnt_remove}
use libinv.Association.Returns.{commit-returns}
use libinv.Extern.Concrete.TreeDb.{tree_db-IsReliable}
use libinv.Association.Links.{link_record}
use libinv.Association.{disassociate_both}
use libinv.Exec.{err}
use libinv.Key.{key_eqb}
use libinv.Prelude.{list_lessb, without, put}
use libinv.Association.{disassociate, link_key, link_string}
use libinv.Key.{local_part, remote_part, parse, string}
use libinv.Index.{path_string}
use libinv.Stored.{WellKeyed}
use libinv.Examples.Data.{left, right, to_right, linked}
use libinv.Prelude.{erase}
use libinv.Key.{inverted}
use libinv.Key.{at}
use libinv.Association.{link_key}
use libinv.Key.{string}
use libinv.Index.{path_string}

pub left-IsClean : IsClean left
unfolding is_clean
left-IsClean = refl

pub right-IsClean : IsClean right
unfolding is_clean
right-IsClean = refl

pub empty_db-WellKeyed : WellKeyed empty_db
unfolding empty_db tree_db lookup
empty_db-WellKeyed k v h = cc

commit-left : (commit left to_right empty_db).0 ≡ ok (on_commit to_right)
unfolding commit associate tree_db tokenizer empty_db remove_links set_links erase insert set_link
    set_key inverted at link_key
commit-left = refl

get-commit_example : contains (path right) (get left linked fresh).assoc ≡ true
unfolding commit associate tree_db tokenizer empty_db contains insert list_eqb path erase
get-commit_example =
    get-commit left right to_right (on_commit to_right) [] (right ∷ []) empty_db left-IsClean
      right-IsClean tt (right-IsClean, tt) refl refl commit-left empty_db-WellKeyed

linked-WellKeyed_example : WellKeyed linked
unfolding path associate insert
linked-WellKeyed_example =
    commit-WellKeyed left to_right (right ∷ []) empty_db left-IsClean (right-IsClean, tt) refl
      empty_db-WellKeyed

linked-WellKeyed : WellKeyed linked
unfolding path associate insert
linked-WellKeyed =
    commit-WellKeyed left to_right (right ∷ []) empty_db left-IsClean (right-IsClean, tt) refl
      empty_db-WellKeyed

first_commit :
    (commit left (disassociate_both (left, fresh) (right, fresh)).0 linked).0
    ≡ ok (on_commit (disassociate_both (left, fresh) (right, fresh)).0)
unfolding path commit remove_links disassociate_both disassociate insert remove_link remove_key
    tree_db lookup associate erase set_links set_link set_key inverted at link_key link_string
    on_commit path_string local_part parse remote_part string list_eqb list_lessb tokenizer without
    put
first_commit = refl

second_disassociation_throws_example :
    commit right
      (disassociate_both (left, fresh) (right, fresh)).1
      (commit left (disassociate_both (left, fresh) (right, fresh)).0 linked).1
    ≡ (
      err couldnt_remove,
      (commit left (disassociate_both (left, fresh) (right, fresh)).0 linked).1,
    )
second_disassociation_throws_example =
    second_disassociation_throws left right fresh fresh
      (on_commit (disassociate_both (left, fresh) (right, fresh)).0) linked left-IsClean
      right-IsClean refl refl refl refl first_commit

commit-returns_example :
    (commit left (disassociate_both (left, fresh) (right, fresh)).0 linked).0
    ≡ ok (on_commit (disassociate_both (left, fresh) (right, fresh)).0)
unfolding path commit remove_links disassociate_both disassociate insert remove_link remove_key
    tree_db lookup associate erase set_links set_link set_key inverted at link_key link_string
    on_commit path_string local_part parse remote_part string list_eqb list_lessb tokenizer without
    put contains key_eqb empty_db link_record
commit-returns_example =
    commit-returns left (disassociate_both (left, fresh) (right, fresh)).0 (right ∷ []) [] linked
      tree_db-IsReliable left-IsClean (right-IsClean, tt) tt refl refl (refl, refl, tt)
      (refl, refl, tt)
