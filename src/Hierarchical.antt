-- ===== src/Hierarchical.antt =====
-- source/include/hierarchical.hh: an object's place in a hierarchy: the key of the object above,
-- the keys below, and what of them is not yet committed. The locks are left out: each call is one
-- step.
pub mod Upward
pub mod Repr
pub mod Clears
pub mod Placed
pub mod Reads
pub mod Update
use libinv.Prelude.{
  ℕ, zero, suc, Bool, true, false, not, List, [], ◌∷◌, ◌++◌, Bytes, codes, Option, none, some,
  is_some, nat_ord, list_ord, contains, insert, erase, if◌then◌else◌,
}
use libinv.Exception.{Exception, runtime_error}
use libinv.Exec.{Result, ok, err, ◌>>=◌, Exec, pure, raise, lift, bind, unless_fails}
use libinv.Extern.Boost.{Boost}
use libinv.Extern.Kyoto.{Kyoto}
use libinv.Key.{
  Key, at, index_separator, down_separator, up_separator, key_eqb, parse, string, prefix, up_key,
  empty,
}
use libinv.Index.{Ident, path, path_string}

pub record Hierarchical : Type 0 where
  pub up_id : Key
  pub down_ids : List Key
  pub add_down_ids : List Key
  pub remove_down_ids : List Key
  pub remove_dkeys : List Key
  pub modified : Bool
  pub db_backed : Bool

abbrev pub fresh : Hierarchical
fresh = record {
  up_id = [];
  down_ids = [];
  add_down_ids = [];
  remove_down_ids = [];
  remove_dkeys = [];
  modified = false;
  db_backed = false;
}

-- operator+=(key)
unfoldable pub add_key : Key → Hierarchical → Hierarchical
add_key key h = record h {
  down_ids = insert key h.down_ids;
  add_down_ids = insert key h.add_down_ids;
  remove_down_ids = erase key h.remove_down_ids;
  modified = true;
}

-- operator-=(key)
unfoldable pub subtract_key : Key → Hierarchical → Hierarchical
subtract_key key h = record h {
  down_ids = erase key h.down_ids;
  add_down_ids = erase key h.add_down_ids;
  remove_down_ids = insert key h.remove_down_ids;
  modified = true;
}

-- operator-=(object), remove(object): of an object i and another object j
unfoldable pub remove_object : Hierarchical → Ident × Hierarchical → Hierarchical × Hierarchical
remove_object h (j, g) = (subtract_key (path j) h, record g { up_id = [] })

unfoldable pub on_get : Hierarchical → Hierarchical
on_get h = record h { db_backed = true }

unfoldable pub on_commit : Hierarchical → Hierarchical
on_commit h = record h {
  add_down_ids = [];
  remove_down_ids = [];
  remove_dkeys = [];
  modified = false;
  db_backed = true;
}

-- set_up_id(key)
unfoldable pub set_up_id : Key → Hierarchical → Hierarchical
set_up_id key h = record h { up_id = key; modified = true }

unfoldable pub is_root : Hierarchical → Bool
is_root h = empty h.up_id

unfoldable pub clear_up : Hierarchical → Hierarchical
clear_up h = record h { up_id = []; modified = true }

unfoldable pub clear_down : Hierarchical → Hierarchical
clear_down h = record h { remove_down_ids = h.down_ids; down_ids = []; modified = true }

unfoldable pub clear : Hierarchical → Hierarchical
unfolding clear_up clear_down
clear h = record (clear_down (clear_up h)) { modified = true }

unfoldable pub set_db_backed : Bool → Hierarchical → Hierarchical
set_db_backed state h = record h { db_backed = state }

unfoldable pub set_modified : Bool → Hierarchical → Hierarchical
set_modified state h = record h { modified = state }

module _ ⦃B : Boost⦄ where
  -- HierarchyDownKey({path, p.string()})
  unfoldable pub down_key : Bytes → Key → Key
  down_key above p = above ∷ string index_separator p ∷ []

  unfoldable pub down_string : Key → Bytes
  down_string = string down_separator

  -- HierarchyUpKey(path) as a std::string
  unfoldable pub up_string : Bytes → Bytes
  up_string path = string up_separator (up_key path)

  -- operator+=(object), insert(object): the object j goes under i. A record from the object that j
  -- was under is queued for removal here.
  unfoldable pub add_object :
      Ident × Hierarchical → Ident × Hierarchical → Hierarchical × Hierarchical
  add_object (i, h) (j, g) =
      let h' = add_key (path j) h in
      (
        if empty g.up_id then h' else record h' {
          remove_dkeys =
              insert (down_key (string index_separator g.up_id) (path j)) h'.remove_dkeys;
        },
        record g { up_id = path i },
      )

  -- A record at the cursor: the object below in a record of this object, or `none` to leave the loop.
  unfoldable pub down_of : Ident → Key → Option Key
  down_of i (local ∷ remote ∷ []) =
      if key_eqb (parse index_separator local) (path i)
      then some (parse index_separator remote)
      else none
  down_of i _ = none

  unfoldable pub scan_down : Ident → List (Bytes × Bytes) → List Key → List Key
  scan_down i [] s = s
  scan_down i ((key, value) ∷ rest) s = elim (down_of i (parse down_separator key)) [
    | none ↦ s
    | some remote ↦ scan_down i rest (insert remote s)
  ]

module _ ⦃B : Boost⦄ ⦃K : Kyoto⦄ where
  -- DB::get(key, &up_id), where up_id stays empty without a record, and from_string
  unfoldable pub stored_up_id : Ident → K.Db → Key
  stored_up_id i d = elim (K.find d (up_string (path_string i))) [
    | none ↦ parse index_separator []
    | some up ↦ parse index_separator up
  ]

  got : Ident → List (Bytes × Bytes) → Hierarchical → Hierarchical
  got i [] h = h
  got i (r ∷ rs) h = on_get (record h { down_ids = scan_down i (r ∷ rs) h.down_ids })

  -- get(db)
  unfoldable pub get : Ident → K.Db → Hierarchical → Hierarchical
  unfolding got on_get scan_down down_of stored_up_id
  get i d h =
      got i (K.records_from d (prefix down_separator (path_string i)))
        (record h { up_id = stored_up_id i d })

  -- The results of the writes below are ignored by the code.
  unfoldable pub commit_up : Ident → Hierarchical → K.Db → K.Db
  commit_up i h d =
      if empty h.up_id
      then (K.remove d (up_string (path_string i))).1
      else (K.set d (up_string (path_string i)) (string index_separator h.up_id)).1

  unfoldable pub commit_add : Ident → List Key → K.Db → K.Db
  commit_add i [] d = d
  commit_add i (p ∷ ps) d =
      let up = (K.set d (up_string (string index_separator p)) (path_string i)).1 in
      commit_add i ps (K.set up (down_string (down_key (path_string i) p)) []).1

  remove_key : Bytes → Exec K.Db (Unit {0})
  remove_key key d =
      let r = K.remove d key in unless_fails r.0 (runtime_error (codes "Couldn't remove keys")) r.1

  unfoldable pub commit_remove : Ident → List Key → Exec K.Db (Unit {0})
  unfolding remove_key
  commit_remove i [] = pure tt
  commit_remove i (p ∷ ps) =
      bind (remove_key (down_string (down_key (path_string i) p)))
        λ _. bind (remove_key (up_string (string index_separator p))) λ _. commit_remove i ps

  unfoldable pub commit_dkeys : List Key → Exec K.Db (Unit {0})
  unfolding remove_key
  commit_dkeys [] = pure tt
  commit_dkeys (dkey ∷ ks) = bind (remove_key (down_string dkey)) λ _. commit_dkeys ks

  -- commit(db): the object is as it was where an exception leaves the loops
  unfoldable pub commit : Ident → Hierarchical → Exec K.Db Hierarchical
  commit i h d =
      bind (commit_remove i h.remove_down_ids)
        (λ _. bind (commit_dkeys h.remove_dkeys) λ _. pure (on_commit h))
        (commit_add i h.add_down_ids (commit_up i h d))
