-- ===== src/Index/Identity.antt =====
-- Identities whose texts hold no separator: their paths survive a trip through text.
use libinv.Prelude.{
  ℕ, ◌≡◌, refl, ap, sym, ◌∙◌, Bool, true, false, not, ◌&&◌, ◌||◌, [], ◌∷◌, ◌++◌, Bytes, contains,
  ltb, ◌==◌, ==_iff, arith, nat_ord, list_ord,
}
use libinv.Extern.Boost.{Boost}
use libinv.Key.{index_separator, parse}
pub use libinv.Key.Words.{contains-append, contains_tail}
use libinv.Key.Words.{IsWord, word_free, AllWords, parse-string}
use libinv.Index.{Ident, path, path_string}

-- One of : * . > < %
unfoldable pub is_separator : ℕ → Bool
is_separator c = c == b':' || c == b'*' || c == b'.' || c == b'>' || c == b'<' || c == b'%'

unfoldable pub all_plain : Bytes → Bool
all_plain [] = true
all_plain (x ∷ w) = not (is_separator x) && all_plain w

-- The type begins with a letter, the id is not empty, and neither holds a separator.
unfoldable pub starts_with_letter : Bytes → Bool
starts_with_letter [] = false
starts_with_letter (x ∷ w) = ltb 64 x

unfoldable pub is_empty : Bytes → Bool
is_empty [] = true
is_empty (x ∷ w) = false

unfoldable pub is_clean : Ident → Bool
unfolding starts_with_letter is_empty all_plain is_separator
is_clean i =
    starts_with_letter i.type && (not (is_empty i.id) && (all_plain i.type && all_plain i.id))

abbrev pub IsClean : Ident → Type 0
IsClean i = is_clean i ≡ true

pub contains_plain :
    (c : ℕ) (w : Bytes) → is_separator c ≡ true → all_plain w ≡ true → contains c w ≡ false
unfolding contains all_plain
contains_plain c [] s p = refl
contains_plain c (x ∷ w) s p = ground (arith, contains_plain c w s, ==_iff x c, is_separator x)

IsWord-of : (c : ℕ) (w : Bytes) → is_empty w ≡ false → contains c w ≡ false → IsWord c w
unfolding is_empty
IsWord-of c [] e p = cc
IsWord-of c (x ∷ w) e p = p

is_empty-append : (v w : Bytes) → is_empty v ≡ false → is_empty (v ++ w) ≡ false
unfolding is_empty
is_empty-append [] w h = cc
is_empty-append (x ∷ v) w h = refl

-- The six tests of `is_clean`.
pub record Clean (i : Ident) : Type 0 where
  pub type_letter : starts_with_letter i.type ≡ true
  pub type_full : is_empty i.type ≡ false
  pub id_full : is_empty i.id ≡ false
  pub type_plain : all_plain i.type ≡ true
  pub id_plain : all_plain i.id ≡ true

full_of_letter : (w : Bytes) → starts_with_letter w ≡ true → is_empty w ≡ false
unfolding starts_with_letter is_empty
full_of_letter [] h = cc
full_of_letter (x ∷ w) h = refl

pub Clean-parts : (i : Ident) → IsClean i → Clean i
unfolding is_clean
Clean-parts i h =
    let t : starts_with_letter i.type ≡ true = ground arith in
    record {
      type_letter = t;
      type_full = full_of_letter i.type t;
      id_full = ground arith;
      type_plain = ground arith;
      id_plain = ground arith;
    }

colon : is_separator index_separator ≡ true
unfolding is_separator
colon = refl

pub path-AllWords : (i : Ident) → IsClean i → AllWords index_separator (path i)
unfolding path
path-AllWords i h =
    let c = Clean-parts i h in
    (
      IsWord-of index_separator i.type c.type_full
          (contains_plain index_separator i.type colon c.type_plain),
      (
        IsWord-of index_separator i.id c.id_full
            (contains_plain index_separator i.id colon c.id_plain),
        tt,
      ),
    )

module _ ⦃B : Boost⦄ where
  -- The path of a clean identity, read back from its text.
  pub parse-path_string : (i : Ident) → IsClean i → parse index_separator (path_string i) ≡ path i
  unfolding path_string
  parse-path_string i h = parse-string index_separator (path i) (path-AllWords i h)

  pub path_string-eq : (i : Ident) → path_string i ≡ i.type ++ index_separator ∷ i.id
  unfolding path_string
  path_string-eq i = rw (B.join_more, B.join_one)

  -- A path of a clean identity is a word to every separator but that of the index.
  pub path_string-IsWord :
      (i : Ident) (c : ℕ)
      → IsClean i
      → is_separator c ≡ true
      → (index_separator == c) ≡ false
      → IsWord c (path_string i)
  path_string-IsWord i c h s n =
      let p = Clean-parts i h in
      rw path_string-eq (
        IsWord-of c (i.type ++ index_separator ∷ i.id)
          (is_empty-append i.type (index_separator ∷ i.id) p.type_full)
          (contains-append c i.type (index_separator ∷ i.id)
            (contains_plain c i.type s p.type_plain)
            (contains_tail c index_separator i.id n (contains_plain c i.id s p.id_plain))))

  -- Clean identities with one text are one.
  pub path_free :
      (i : Ident) (c : ℕ)
      → IsClean i
      → is_separator c ≡ true
      → (index_separator == c) ≡ false
      → contains c (path_string i) ≡ false
  path_free i c h s n = word_free c (path_string i) (path_string-IsWord i c h s n)

  pub path_string-injective :
      (i j : Ident) → IsClean i → IsClean j → path_string i ≡ path_string j → i ≡ j
  unfolding path
  path_string-injective i j hi hj e =
      let q : path i ≡ path j =
        sym (parse-path_string i hi) ∙ (ap (parse index_separator) e ∙ parse-path_string j hj) in
      ground arith
