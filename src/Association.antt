-- ===== src/Association.antt =====
-- source/include/association.hh: the links of an object. Two sets hold what is not yet committed,
-- a third all the links that the object knows. The locks are left out: each call is one step.
pub mod Repr
pub mod Links
pub mod Commit
pub mod Scan
pub mod Get
pub mod Returns
pub mod RoundTrip
pub mod Reads
pub mod Update
pub mod Consistent
use libinv.Prelude.{
  Bool, true, false, List, [], ◌∷◌, Bytes, codes, Option, none, some, list_eqb, nat_ord, list_ord,
  contains, insert, erase, if◌then◌else◌,
}
use libinv.Exception.{runtime_error}
use libinv.Exec.{Result, ok, ◌>>=◌, Exec, pure, lift, bind, unless_fails}
use libinv.Extern.Boost.{Boost}
use libinv.Extern.Kyoto.{Kyoto}
use libinv.Key.{Key, at, index_separator, link_separator, key_eqb, parse, string, prefix, inverted}
use libinv.Index.{Ident, path, path_string}

pub record Association : Type 0 where
  pub assoc : List Key
  pub add : List Key
  pub remove : List Key
  pub modified : Bool
  pub db_backed : Bool

abbrev pub fresh : Association
fresh = record { assoc = []; add = []; remove = []; modified = false; db_backed = false }

-- associate(key)
unfoldable pub associate : Key → Association → Association
associate key a = record a {
  add = insert key a.add;
  remove = erase key a.remove;
  assoc = insert key a.assoc;
  modified = true;
}

-- disassociate(key)
unfoldable pub disassociate : Key → Association → Association
disassociate key a = record a {
  remove = insert key a.remove;
  add = erase key a.add;
  assoc = erase key a.assoc;
  modified = true;
}

-- associate(object), disassociate(object): both ends, at two distinct objects
unfoldable pub associate_both :
    Ident × Association → Ident × Association → Association × Association
associate_both (i, a) (j, b) = (associate (path j) a, associate (path i) b)

unfoldable pub disassociate_both :
    Ident × Association → Ident × Association → Association × Association
disassociate_both (i, a) (j, b) = (disassociate (path j) a, disassociate (path i) b)

unfoldable pub set_db_backed : Bool → Association → Association
set_db_backed state a = record a { db_backed = state }

unfoldable pub set_modified : Bool → Association → Association
set_modified state a = record a { modified = state }

unfoldable pub on_get : Association → Association
on_get a = record a { db_backed = true }

unfoldable pub on_commit : Association → Association
on_commit a = record a { remove = []; add = []; db_backed = true; modified = false }

-- for (key : m_assoc) m_remove.insert(key)
unfoldable pub insert_all : List Key → List Key → List Key
insert_all [] s = s
insert_all (k ∷ ks) s = insert_all ks (insert k s)

unfoldable pub clear : Association → Association
unfolding insert_all
clear a = record a { remove = insert_all a.assoc a.remove; assoc = []; add = []; modified = true }

-- assoc_ids<AssocObject>(): the links whose type_part() is AssocObject::type()
unfoldable pub assoc_ids : Bytes → List Key → Result (List Key)
unfolding at
assoc_ids type [] = ok []
assoc_ids type (k ∷ ks) = do
  t ← at k 0
  found ← assoc_ids type ks
  ok (if list_eqb t type then k ∷ found else found)

module _ ⦃B : Boost⦄ where
  -- LinkKey({derived.path(), p.string()})
  unfoldable pub link_key : Ident → Key → Key
  link_key i p = path_string i ∷ string index_separator p ∷ []

  unfoldable pub link_string : Key → Bytes
  link_string = string link_separator

  -- A record at the cursor: the remote end of a link of this object, or `none` to leave the loop.
  unfoldable pub link_of : Ident → Key → Option Key
  link_of i (local ∷ remote ∷ []) =
      if key_eqb (parse index_separator local) (path i)
      then some (parse index_separator remote)
      else none
  link_of i _ = none

  unfoldable pub scan_links : Ident → List (Bytes × Bytes) → List Key → List Key
  scan_links i [] s = s
  scan_links i ((key, value) ∷ rest) s = elim (link_of i (parse link_separator key)) [
    | none ↦ s
    | some remote ↦ scan_links i rest (insert remote s)
  ]

module _ ⦃B : Boost⦄ ⦃K : Kyoto⦄ where
  unfoldable got : Ident → List (Bytes × Bytes) → Association → Association
  got i [] a = a
  got i (r ∷ rs) a = on_get (record a { assoc = scan_links i (r ∷ rs) a.assoc })

  -- get(db); nothing happens where the cursor's jump fails
  unfoldable pub get : Ident → K.Db → Association → Association
  unfolding got on_get scan_links link_of
  get i d a = got i (K.records_from d (prefix link_separator (path_string i))) a

  unfoldable pub set_key : Bytes → Exec K.Db (Unit {0})
  set_key key d =
      let r = K.set d key [] in unless_fails r.0 (runtime_error (codes "Couldn't set kv")) r.1

  unfoldable pub remove_key : Bytes → Exec K.Db (Unit {0})
  remove_key key d =
      let r = K.remove d key in unless_fails r.0 (runtime_error (codes "Couldn't remove keys")) r.1

  -- Both records of a link: the key, and the inverted key.
  unfoldable pub remove_link : Key → Exec K.Db (Unit {0})
  remove_link link =
      bind (remove_key (link_string link))
        λ _. bind (lift (inverted link)) λ back. remove_key (link_string back)

  unfoldable pub set_link : Key → Exec K.Db (Unit {0})
  set_link link =
      bind (set_key (link_string link))
        λ _. bind (lift (inverted link)) λ back. set_key (link_string back)

  unfoldable pub remove_links : Ident → List Key → Exec K.Db (Unit {0})
  remove_links i [] = pure tt
  remove_links i (p ∷ ps) = bind (remove_link (link_key i p)) λ _. remove_links i ps

  unfoldable pub set_links : Ident → List Key → Exec K.Db (Unit {0})
  set_links i [] = pure tt
  set_links i (p ∷ ps) = bind (set_link (link_key i p)) λ _. set_links i ps

  -- commit(db): the object is as it was where an exception leaves the loops
  unfoldable pub commit : Ident → Association → Exec K.Db Association
  commit i a = bind (remove_links i a.remove) λ _. bind (set_links i a.add) λ _. pure (on_commit a)
