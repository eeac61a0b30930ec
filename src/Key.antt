-- ===== src/Key.antt =====
-- source/include/key.hh: a key is a vector of tokens, and its text joins them by the separator of
-- its class. A key is a list of texts here, and the class shows in the separator that is passed.
pub mod Words
use libinv.Prelude.{
  ℕ, zero, suc, ◌<◌, ◌==◌, Bool, true, false, not, List, [], ◌∷◌, ◌++◌, Bytes, codes, list_eqb,
  list_lessb, nat_ord, list_ord, if◌then◌else◌,
}
use libinv.Exception.{out_of_range}
use libinv.Exec.{Result, ok, err, ◌>>=◌}
use libinv.Extern.Boost.{Boost}

abbrev pub Key : Type 0
Key = List Bytes

-- IndexSeparator, AttributeSeparator, LinkSeparator, HierarchyDownSeparator, HierarchyUpSeparator,
-- ModeSeparator
abbrev pub index_separator : ℕ
index_separator = b':'

abbrev pub attribute_separator : ℕ
attribute_separator = b'.'

abbrev pub link_separator : ℕ
link_separator = b'*'

abbrev pub down_separator : ℕ
down_separator = b'>'

abbrev pub up_separator : ℕ
up_separator = b'<'

abbrev pub mode_separator : ℕ
mode_separator = b'%'

-- operator[]
unfoldable pub at : Key → ℕ → Result Bytes
at [] n = err (out_of_range (codes "No such token"))
at (t ∷ k) zero = ok t
at (t ∷ k) (suc n) = at k n

-- operator== and operator<
abbrev pub key_eqb : Key → Key → Bool
key_eqb = list_eqb

abbrev pub key_lessb : Key → Key → Bool
key_lessb = list_lessb

-- elements()
unfoldable pub elements : Key → ℕ
elements [] = 0
elements (t ∷ k) = suc (elements k)

-- empty(); operator bool is its negation
unfoldable pub empty : Key → Bool
unfolding elements
empty k = elements k == 0

-- good() of the classes of two tokens
unfoldable pub good : Key → Bool
unfolding elements
good k = elements k == 2

-- prefix(local_part) of the classes that have one
unfoldable pub prefix : ℕ → Bytes → Bytes
prefix sep local_part = local_part ++ sep ∷ []

-- compare(p, upto), for two keys of one class
compare_from : Key → Key → ℕ → ℕ → Result Bool
compare_from k p i zero = ok true
compare_from k p i (suc n) = do
  a ← at k i
  b ← at p i
  if list_eqb a b then compare_from k p (suc i) n else ok false

pub compare : Key → Key → ℕ → Result Bool
compare k p upto = compare_from k p 0 upto

module _ ⦃B : Boost⦄ where
  -- Key(std::string path), from_string
  unfoldable pub parse : ℕ → Bytes → Key
  parse sep path = B.tokens sep path

  -- string(), operator std::string
  unfoldable pub string : ℕ → Key → Bytes
  string sep k = B.join k (sep ∷ [])

  -- HierarchyUpKey(std::string key): one more token
  unfoldable pub up_key : Bytes → Key
  unfolding parse
  up_key key = parse up_separator key ++ codes "up" ∷ []

  -- local_part(), container_part(): the first token, as an IndexKey
  unfoldable pub local_part : Key → Result Key
  local_part k = do t ← at k 0; ok (parse index_separator t)

  -- remote_part(): the second token, as an IndexKey
  unfoldable pub remote_part : Key → Result Key
  remote_part k = do t ← at k 1; ok (parse index_separator t)

  -- LinkKey::inverted
  unfoldable pub inverted : Key → Result Key
  unfolding local_part remote_part
  inverted k = do
    remote ← remote_part k
    local ← local_part k
    ok (string index_separator remote ∷ string index_separator local ∷ [])
