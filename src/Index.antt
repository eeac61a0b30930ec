-- ===== src/Index.antt =====
-- source/include/index.hh: the identity of an object, type and id, and its index record, whose key
-- is type:id. What rand(), uuid_generate and baseencode draw is an argument, in the order drawn.
pub mod Identity
pub mod Records
use libinv.Prelude.{
  ℕ, ◌+◌, ◌/◌, ◌%◌, Bool, true, false, List, [], ◌∷◌, ◌++◌, Bytes, codes, Option, none, some,
  is_some, list_eqb, nat_ord, list_ord, ltb, if◌then◌else◌,
}
use libinv.Exception.{runtime_error}
use libinv.Exec.{Result, ok, err, ◌>>=◌, Exec, unless_fails}
use libinv.Extern.Boost.{Boost}
use libinv.Extern.Kyoto.{Kyoto}
use libinv.Extern.Uuid.{Uuid}
use libinv.Key.{Key, index_separator, at, parse, string}

-- Derived::type() and derived.id()
pub record Ident : Type 0 where
  pub type : Bytes
  pub id : Bytes

-- path()
unfoldable pub path : Ident → Key
path i = i.type ∷ i.id ∷ []

-- prefix_match(path), id_match(path)
unfoldable pub prefix_match : Ident → Key → Result Bool
prefix_match i k = do t ← at k 0; ok (list_eqb t i.type)

unfoldable pub id_match : Ident → Key → Result Bool
id_match i k = do t ← at k 1; ok (list_eqb t i.id)

module _ ⦃B : Boost⦄ where
  -- path() as a std::string
  unfoldable pub path_string : Ident → Bytes
  unfolding path string
  path_string i = string index_separator (path i)

  -- db_key_match(pstr)
  unfoldable pub db_key_match : Ident → Bytes → Result Bool
  unfolding prefix_match id_match parse at
  db_key_match i pstr = do
    let k = parse index_separator pstr
    m ← prefix_match i k
    if m then id_match i k else ok false

module _ ⦃B : Boost⦄ ⦃K : Kyoto⦄ where
  unfoldable pub commit : Ident → Exec K.Db (Unit {0})
  commit i d =
      let r = K.set d (path_string i) [] in
      unless_fails r.0 (runtime_error (codes "Couldn't set kv")) r.1

  -- check(path()) != -1
  unfoldable pub exists : Ident → K.Db → Bool
  exists i d = is_some (K.find d (path_string i))

  -- The comparison of remove's Boolean with -1 always holds.
  unfoldable pub remove : Ident → K.Db → Bool × K.Db
  remove i d = (true, (K.remove d (path_string i)).1)

  -- generate_id(db): draws ids until one has no index record; `none` where the draws end before.
  unfoldable pub generate_id : Bytes → List Bytes → K.Db → Option (Ident × List Bytes)
  generate_id type [] d = none
  generate_id type (drawn ∷ draws) d =
      let i : Ident = record { type = type; id = drawn } in
      let again = generate_id type draws d in if exists i d then again else some (i, draws)

-- The state of the three index classes: the id and whether it was generated.
pub record StringIndex : Type 0 where
  pub id : Bytes
  pub generated_id : Bool

-- StringIndexedObject and Base64ID: assign_id, get, and generate_id at what was drawn.
unfoldable pub assign_id : Bytes → StringIndex → StringIndex
assign_id id s = record { id = id; generated_id = false }

unfoldable pub generated : Bytes → StringIndex → StringIndex
generated drawn s = record { id = drawn; generated_id = true }

-- id_from_path of StringIndexedObject and Base64ID: the id part, and generated_id stays.
unfoldable pub id_from_path : Key → StringIndex → Result StringIndex
unfolding at
id_from_path k s = do id ← at k 1; ok (record s { id = id })

-- std::to_string of a number below 10000
unfoldable pub decimal : ℕ → Bytes
decimal n =
    if ltb n 10
    then (48 + n) ∷ []
    else if ltb n 100
    then (48 + n / 10) ∷ (48 + n % 10) ∷ []
    else if ltb n 1000
    then (48 + n / 100) ∷ (48 + n / 10 % 10) ∷ (48 + n % 10) ∷ []
    else (48 + n / 1000) ∷ (48 + n / 100 % 10) ∷ (48 + n / 10 % 10) ∷ (48 + n % 10) ∷ []

-- StringIndexedObject::generate_id: Derived::type() + to_string(rand() % 10000)
unfoldable pub string_id : Bytes → ℕ → Bytes
unfolding decimal
string_id type random = type ++ decimal (random % 10000)

module _ ⦃U : Uuid⦄ where
  pub record UuidIndex : Type 0 where
    pub uuid : U.Value
    pub generated_id : Bool

  uuid_id : UuidIndex → Bytes
  uuid_id s = U.unparse s.uuid

  -- id_from_string, with the exception of a bad text
  uuid_from_string : Bytes → Result U.Value
  uuid_from_string s = elim (U.parse s) [
    | none ↦ err (runtime_error (codes "Bad UUID: " ++ s))
    | some u ↦ ok u
  ]

  uuid_assign_id : Bytes → UuidIndex → Result UuidIndex
  uuid_assign_id id s = do u ← uuid_from_string id; ok (record { uuid = u; generated_id = false })

  -- id_from_path of UUIDIndexedObject
  unfoldable pub uuid_from_path : Key → UuidIndex → Result UuidIndex
  unfolding at uuid_from_string
  uuid_from_path k s = do id ← at k 1; u ← uuid_from_string id; ok (record s { uuid = u })

  uuid_generated : U.Value → UuidIndex → UuidIndex
  uuid_generated drawn s = record { uuid = drawn; generated_id = true }
