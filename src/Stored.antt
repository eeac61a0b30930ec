-- ===== src/Stored.antt =====
-- The keys of a database that the program writes for clean identities: an index record, the global
-- index of a type, a link or a hierarchy record between two objects, or a record of an attribute,
-- an upward reference or a mode. Names hold no separator.
pub mod Writes
pub mod Cursor
pub mod Frame
use libinv.Prelude.{
  ℕ, ◌≡◌, Bool, true, false, ◌||◌, List, [], ◌∷◌, ◌++◌, Bytes, Option, none, some, ◌==◌, ◌≢◌,
}
use libinv.Extern.Boost.{Boost}
use libinv.Extern.Kyoto.{Kyoto}
use libinv.Index.{Ident, path_string}
use libinv.Index.Identity.{IsClean, all_plain}

abbrev pub pair_separator : ℕ → Bool
pair_separator c = c == b'*' || c == b'>'

abbrev pub name_separator : ℕ → Bool
name_separator c = c == b'.' || c == b'<' || c == b'%'

pub data Stored ⦃B : Boost⦄ (k : Bytes) : Type 0 where
  index_record : (i : Ident) → IsClean i → k ≡ path_string i → Stored k
  global_record : all_plain k ≡ true → Stored k
  pair_record :
      (c : ℕ) (i j : Ident)
      → pair_separator c ≡ true
      → IsClean i
      → IsClean j
      → k ≡ path_string i ++ c ∷ path_string j
      → Stored k
  named_record :
      (c : ℕ) (i : Ident) (name : Bytes)
      → name_separator c ≡ true
      → IsClean i
      → all_plain name ≡ true
      → k ≡ path_string i ++ c ∷ name
      → Stored k

-- Every key of the database is one of these.
abbrev pub WellKeyed : ⦃B : Boost⦄ ⦃K : Kyoto⦄ → K.Db → Type 0
WellKeyed ⦃B⦄ ⦃K⦄ d = (k v : Bytes) → K.find d k ≡ some v → Stored k
