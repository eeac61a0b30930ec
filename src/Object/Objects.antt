-- ===== src/Object/Objects.antt =====
-- source/include/object.hh, association.hh and hierarchical.hh: the objects that an object's links
-- and its place name, made from their keys or loaded from the database.
pub mod Loaded
use libinv.Prelude.{
  ◌≡◌, refl, true, false, List, [], ◌∷◌, ◌++◌, Bytes, codes, none, list_eqb, nat_ord, list_ord, map,
  if◌then◌else◌, arith, inl, inr, Option-cases,
}
use libinv.Exception.{Exception, runtime_error}
use libinv.Exec.{Result, ok, err, ◌>>=◌, Exec, pure, bind, lift}
use libinv.Extern.Uuid.{Uuid}
use libinv.Extern.Boost.{Boost}
use libinv.Key.{Key, at, index_separator, string}
use libinv.Index.{
  Ident, StringIndex, UuidIndex, path, path_string, assign_id, id_from_path, uuid_from_path,
}
use libinv.Association.{Association, assoc_ids}
use libinv.Hierarchical.{Hierarchical}
use libinv.Extern.Json.{Json}
use libinv.Mixins.{Mixin, Parts}
use libinv.Object.{get, remove}

-- get(db, id)
unfoldable pub get_by_id :
    ⦃J : Json⦄
    → {Obj Db : Type 0} → Parts Obj Db
    → List (Mixin Obj Db)
    → Bytes
    → Exec (Obj × Db) (Unit {0})
unfolding get
get_by_id P ms id (o, d) = elim (P.assign_id id o) [
  | err e ↦ (err e, (o, d))
  | ok o' ↦ get P ms (o', d)
]

-- remove_existing, where `new` is the object that is made for the id
unfoldable pub remove_existing :
    ⦃J : Json⦄
    → {Obj Db : Type 0} → Parts Obj Db
    → List (Mixin Obj Db)
    → Obj
    → Exec (Obj × Db) (Unit {0})
unfolding get remove
remove_existing P ms new (o, d) = elim (P.assign_id (P.id o) new) [
  | err e ↦ (err e, (o, d))
  | ok ex_obj ↦ let done = bind (get P ms) (λ _. remove P ms) (ex_obj, d) in (done.0, (o, done.1.1))
]

-- An object is made of its key by `from_key`, Object(IndexKey path), which may throw.
module _ {A : Type 0} (from_key : Key → Result A) where
  -- assoc_objects<AssocObject>(): each object is made before its type is tested.
  unfoldable pub assoc_objects : Bytes → List Key → Result (List A)
  unfolding at
  assoc_objects type [] = ok []
  assoc_objects type (k ∷ ks) = do
    obj ← from_key k
    t ← at k 0
    rest ← assoc_objects type ks
    ok (if list_eqb t type then obj ∷ rest else rest)

  -- down()
  unfoldable pub down_each : List Key → Result (List A)
  down_each [] = ok []
  down_each (k ∷ ks) = do obj ← from_key k; rest ← down_each ks; ok (obj ∷ rest)

  -- up()
  unfoldable pub up : Hierarchical → Result A
  up h = from_key h.up_id

  unfoldable pub down : Hierarchical → Result (List A)
  unfolding down_each
  down h = down_each h.down_ids

module _ ⦃J : Json⦄ {Obj Db : Type 0} (P : Parts Obj Db) (ms : List (Mixin Obj Db))
    (new : Obj) where
  -- A new object, and its get(db, id).
  unfoldable pub load_new : Bytes → Exec Db Obj
  load_new id d = let r = get_by_id P ms id (new, d) in (r.0 >>= λ _. ok r.1.0, r.1.1)

  unfoldable pub assoc_objects_each : Bytes → List Key → Exec Db (List Obj)
  assoc_objects_each type [] = pure []
  assoc_objects_each type (k ∷ ks) = bind (lift (at k 1)) λ id. bind (load_new id) λ obj.
      bind (lift (at k 0)) λ t.
        bind (assoc_objects_each type ks)
          λ rest. pure (if list_eqb t type then obj ∷ rest else rest)

  -- assoc_objects<AssocObject>(db)
  unfoldable pub assoc_objects_db : Bytes → Association → Exec Db (List Obj)
  unfolding assoc_objects_each
  assoc_objects_db type a = bind (lift (assoc_ids type a.assoc)) λ ids. assoc_objects_each type ids

  -- up(db)
  unfoldable pub up_db : Hierarchical → Exec Db Obj
  up_db h = bind (lift (at h.up_id 1)) load_new

-- Object(IndexKey path), for an index that drew an id when it was made: the constructor of a key in
-- the classes that inherit the constructors of Object.
unfoldable pub string_from_key : Bytes → Key → Result StringIndex
unfolding id_from_path
string_from_key drawn k = id_from_path k (record { id = drawn; generated_id = true })

unfoldable pub uuid_from_key : ⦃U : Uuid⦄ → U.Value → Key → Result UuidIndex
unfolding uuid_from_path
uuid_from_key drawn k = uuid_from_path k (record { uuid = drawn; generated_id = true })

-- Sticker(const std::string &id), for a key that is converted to a string: what a Sticker, which
-- inherits no constructor, is made by where it is made of a key
unfoldable pub sticker_from_key : ⦃B : Boost⦄ → Bytes → Key → Result StringIndex
unfolding string
sticker_from_key drawn k =
    ok (assign_id (string index_separator k) (record { id = drawn; generated_id = true }))

-- The identities of a type.
abbrev pub of_type : Bytes → List Ident → List Ident
of_type type [] = []
of_type type (j ∷ js) =
    let rest = of_type type js in if list_eqb j.type type then j ∷ rest else rest

-- The index of an object that is made of the key of an identity: its id counts as generated.
abbrev pub unsaved_index : Ident → StringIndex
unsaved_index j = record { id = j.id; generated_id = true }

made_of_type :
    (type drawn : Bytes) (js : List Ident)
    → assoc_objects (string_from_key drawn) type (map path js)
      ≡ ok (map unsaved_index (of_type type js))
unfolding assoc_objects string_from_key path
made_of_type type drawn [] = refl
made_of_type type drawn (j ∷ js) = ground (arith, made_of_type type drawn js)

-- The index of a sticker that is made of the key of an identity: its id is the text of the key.
abbrev pub sticker_index : ⦃B : Boost⦄ → Ident → StringIndex
sticker_index j = record { id = path_string j; generated_id = false }

made_stickers :
    ⦃B : Boost⦄
    → (type drawn : Bytes) (js : List Ident)
    → assoc_objects (sticker_from_key drawn) type (map path js)
      ≡ ok (map sticker_index (of_type type js))
unfolding assoc_objects sticker_from_key path path_string assign_id
made_stickers type drawn [] = refl
made_stickers type drawn (j ∷ js) = ground (arith, made_stickers type drawn js)

made_all :
    (drawn : Bytes) (js : List Ident)
    → down_each (string_from_key drawn) (map path js) ≡ ok (map unsaved_index js)
unfolding down_each string_from_key path at
made_all drawn [] = refl
made_all drawn (j ∷ js) = ground (arith, made_all drawn js)

-- assoc_objects of a class with texts for ids gives objects for exactly the linked objects of its
-- type, in the order of the links. In a class that inherits the constructors of Object each has its
-- own id, which counts as generated, and down gives all those below likewise; but each Sticker has the
-- text of the whole key, its type included, for its id, which does not count as generated. Links and
-- places name identities.
pub assoc_objects-of_type :
    ⦃B : Boost⦄
    → (type drawn : Bytes) (js : List Ident) (h : Hierarchical) → h.down_ids ≡ map path js
    → (assoc_objects (string_from_key drawn) type (map path js)
        ≡ ok (map unsaved_index (of_type type js)))
      × (down (string_from_key drawn) h ≡ ok (map unsaved_index js))
      × (assoc_objects (sticker_from_key drawn) type (map path js)
          ≡ ok (map sticker_index (of_type type js)))
unfolding down
assoc_objects-of_type type drawn js h e =
    (made_of_type type drawn js, rw e (made_all drawn js), made_stickers type drawn js)

-- The keys of the links of a type.
pub ids_of_type :
    (type : Bytes) (js : List Ident)
    → assoc_ids type (map path js) ≡ ok (map path (of_type type js))
unfolding assoc_ids path at
ids_of_type type [] = refl
ids_of_type type (j ∷ js) = ground (arith, ids_of_type type js)

module _ ⦃U : Uuid⦄ where
  not_uuid :
      (type : Bytes) (drawn : U.Value) (j : Ident) (before behind : List Ident)
      → U.parse j.id ≡ none
      → (e : Exception) × (assoc_objects
            (uuid_from_key drawn)
            type
            (map path (before ++ j ∷ behind))
          ≡ err e)
  unfolding assoc_objects uuid_from_key path uuid_from_path
  not_uuid type drawn j [] behind n =
      (runtime_error (codes "Bad UUID: " ++ j.id), ground (arith, n))
  not_uuid type drawn j (i ∷ before) behind n =
      let (e, rest) = not_uuid type drawn j before behind n in
      elim (Option-cases (U.parse i.id)) [
        | inl x ↦ (runtime_error (codes "Bad UUID: " ++ i.id), ground (arith, x))
        | inr (u, x) ↦ (e, ground (arith, x, rest))
      ]

  -- assoc_objects of a class with UUIDs for ids throws where any linked object, also one of another
  -- type, has an id that is not a UUID, although assoc_ids gives the keys of the type.
  pub assoc_objects_throws :
      (type : Bytes) (drawn : U.Value) (j : Ident) (before behind : List Ident)
      → U.parse j.id ≡ none
      → ((e : Exception) × (assoc_objects
              (uuid_from_key drawn)
              type
              (map path (before ++ j ∷ behind))
            ≡ err e))
        × (assoc_ids type (map path (before ++ j ∷ behind))
            ≡ ok (map path (of_type type (before ++ j ∷ behind))))
  assoc_objects_throws type drawn j before behind n =
      (not_uuid type drawn j before behind n, ids_of_type type (before ++ j ∷ behind))
