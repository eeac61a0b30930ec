-- ===== src/Container.antt =====
-- source/include/container.hh: the attributes of an object, a map from names to values, and the
-- names whose records a commit removes. The locks are left out: each call is one step.
pub mod Repr
pub mod Commit
pub mod Tokens
pub mod Owned
pub mod Get
pub mod RoundTrip
pub mod Reads
pub mod Update
use libinv.Prelude.{
  Bool, true, false, List, [], ◌∷◌, ◌++◌, Bytes, codes, Option, none, some, is_some, nat_ord,
  list_ord, lookup, put, without, if◌then◌else◌, map,
}
use libinv.Exception.{Exception, runtime_error}
use libinv.Exec.{Result, ok, err, ◌>>=◌, Exec, pure, raise, lift, bind, unless_fails}
use libinv.Extern.Boost.{Boost}
use libinv.Extern.Kyoto.{Kyoto}
use libinv.Key.{Key, at, index_separator, attribute_separator, parse, string, prefix, local_part}
use libinv.Index.{Ident, path_string, db_key_match}

pub record Container : Type 0 where
  pub attrs : List (Bytes × Bytes)
  pub delete : List Bytes
  pub db_backed : Bool

abbrev pub fresh : Container
fresh = record { attrs = []; delete = []; db_backed = false }

-- Attribute, the handle (*this)[key]: operator=(value)
unfoldable pub assign : Bytes → Bytes → Container → Container
assign key value c = record c { attrs = put key value c.attrs }

-- Attribute::exists
unfoldable pub has_attribute : Bytes → Container → Bool
has_attribute key c = is_some (lookup key c.attrs)

-- Attribute's operator std::string and operator const char*
unfoldable pub attribute_value : Bytes → Container → Bytes
attribute_value key c = elim (lookup key c.attrs) [ none ↦ [] | some v ↦ v ]

-- Attribute::remove
unfoldable pub remove_attribute : Bytes → Container → Container
unfolding has_attribute
remove_attribute key c =
    if has_attribute key c
    then record c { attrs = without key c.attrs; delete = c.delete ++ key ∷ [] }
    else c

-- set_modified(state) does nothing, and modified() is always true.
unfoldable pub set_db_backed : Bool → Container → Container
set_db_backed state c = record c { db_backed = state }

unfoldable pub on_commit : Container → Container
on_commit c = record c { delete = []; db_backed = true }

unfoldable pub on_get : Container → Container
on_get c = record c { db_backed = true }

-- The names of a map, in its order.
unfoldable pub names : List (Bytes × Bytes) → List Bytes
names [] = []
names ((k, v) ∷ m) = k ∷ names m

unfoldable pub clear : Container → Container
unfolding names
clear c = record c { delete = c.delete ++ names c.attrs; attrs = [] }

module _ ⦃B : Boost⦄ where
  -- Attribute::db_key(container_path, key) as a std::string
  unfoldable pub attribute_string : Ident → Bytes → Bytes
  attribute_string i key = string attribute_separator (path_string i ∷ key ∷ [])

  -- The try block of get: attribute_part() may throw, and is then passed over.
  unfoldable keep_attribute : Key → Bytes → Container → Container
  keep_attribute k value c = elim (at k 1) [
    | ok name ↦ record c { attrs = put name value c.attrs }
    | err e ↦ c
  ]

  -- db_key_match(AttributeKey(path).container_part()), with the container part as a std::string
  unfoldable pub is_own : Ident → Key → Result Bool
  is_own i k = do container ← local_part k; db_key_match i (string index_separator container)

  -- The cursor loop of get: it ends at the first record of another container, or by a throw.
  unfoldable pub scan_attributes : Ident → List (Bytes × Bytes) → Exec Container (Unit {0})
  unfolding keep_attribute
  scan_attributes i [] = pure tt
  scan_attributes i ((key, value) ∷ rest) =
      let k = parse attribute_separator key in
      let more = scan_attributes i rest in
      bind (lift (is_own i k)) λ own c. if own then more (keep_attribute k value c) else pure tt c

module _ ⦃B : Boost⦄ ⦃K : Kyoto⦄ where
  unfoldable got : Ident → List (Bytes × Bytes) → Exec Container (Unit {0})
  got i [] = pure tt
  got i (r ∷ rs) = bind (scan_attributes i (r ∷ rs)) λ _ c. pure tt (on_get c)

  -- get(db)
  unfoldable pub get : Ident → K.Db → Exec Container (Unit {0})
  unfolding got on_get scan_attributes
  get i d = got i (K.records_from d (prefix attribute_separator (path_string i)))

  unfoldable pub remove_attributes : Ident → List Bytes → Exec K.Db (Unit {0})
  remove_attributes i [] = pure tt
  remove_attributes i (k ∷ ks) =
      bind
        (λ d.
          let r = K.remove d (attribute_string i k) in
          unless_fails r.0 (runtime_error (codes "Couldn't remove key")) r.1)
        λ _. remove_attributes i ks

  -- The text of the exception ends with the message of the database, which is `message` here.
  unfoldable pub set_attributes : Bytes → Ident → List (Bytes × Bytes) → Exec K.Db (Unit {0})
  set_attributes message i [] = pure tt
  set_attributes message i ((k, v) ∷ m) =
      bind
        (λ d.
          let r = K.set d (attribute_string i k) v in
          unless_fails r.0
            (runtime_error (
              codes "Couldn't set kv ("
              ++ (attribute_string i k ++ (codes "," ++ (v ++ (codes ")" ++ message))))))
            r.1)
        λ _. set_attributes message i m

  -- commit(db): the object is as it was where an exception leaves the loops
  unfoldable pub commit : Bytes → Ident → Container → Exec K.Db Container
  commit message i c =
      bind (remove_attributes i c.delete)
        λ _. bind (set_attributes message i c.attrs) λ _. pure (on_commit c)
