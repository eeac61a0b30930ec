-- ===== src/Container/Tokens.antt =====
-- The tokens of a stored key, and the comparison of the first one with the path of an object.
use libinv.Prelude.{
  ℕ, ◌≡◌, refl, true, false, ◌∷◌, ◌++◌, Bytes, contains, list_eqb, list_ord, nat_ord, arith, ◌==◌,
  ◌&&◌,
}
use libinv.Exec.{ok}
use libinv.Extern.Boost.{Boost}
use libinv.Key.{Key, index_separator, attribute_separator, parse, string, at, local_part}
use libinv.Key.Words.{word_free, parse-string-parse}
use libinv.Index.{Ident, path_string, db_key_match, prefix_match, id_match}
use libinv.Index.Identity.{IsClean, is_separator, path_string-IsWord}
use libinv.Stored.{pair_separator, name_separator}
use libinv.Container.{attribute_string, is_own}

abbrev pub dot : ℕ
dot = attribute_separator

pub pair_sep :
    (c : ℕ)
    → pair_separator c ≡ true
    → (is_separator c ≡ true) × ((c == index_separator) ≡ false) × ((c == dot) ≡ false)
unfolding is_separator
pair_sep c s = (ground arith, ground arith, ground arith)

pub name_sep :
    (c : ℕ) → name_separator c ≡ true → (is_separator c ≡ true) × ((c == index_separator) ≡ false)
unfolding is_separator
name_sep c s = (ground arith, ground arith)

module _ ⦃B : Boost⦄ where
  pub no_dot : (j : Ident) → IsClean j → contains dot (path_string j) ≡ false
  unfolding is_separator
  no_dot j hj = word_free dot (path_string j) (path_string-IsWord j dot hj refl refl)

  pub attribute_string-eq :
      (i : Ident) (h : Bytes) → attribute_string i h ≡ path_string i ++ dot ∷ h
  unfolding attribute_string string
  attribute_string-eq i h = rw (B.join_more, B.join_one)

  pub is_own-token :
      (i : Ident) (k t : Bytes) (ks : Key)
      → parse dot k ≡ t ∷ ks
      → is_own i (parse dot k) ≡ db_key_match i t
  unfolding is_own local_part at db_key_match
  is_own-token i k t ks e = rw (e, parse-string-parse index_separator t)

  pub db_key_match-two :
      (i : Ident) (t x y : Bytes) (ks : Key)
      → parse index_separator t ≡ x ∷ y ∷ ks
      → db_key_match i t ≡ ok (list_eqb x i.type && list_eqb y i.id)
  unfolding db_key_match prefix_match id_match at
  db_key_match-two i t x y ks e = ground (arith, e)
