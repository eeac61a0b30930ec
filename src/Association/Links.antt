-- ===== src/Association/Links.antt =====
-- The records of a link between two clean identities, and what a commit writes.
use libinv.Prelude.{◌≡◌, refl, ap, sym, ◌∙◌, true, [], ◌∷◌, Bytes, list_ord, nat_ord, arith}
use libinv.Exec.{ok}
use libinv.Extern.Boost.{Boost}
use libinv.Key.{Key, at, link_separator, parse, inverted}
use libinv.Key.Words.{AllWords, parse-string}
use libinv.Index.{Ident, path, path_string}
use libinv.Index.Identity.{
  IsClean, is_separator, parse-path_string, path_string-IsWord, path_string-injective,
}
use libinv.Association.{link_key, link_string}

pub star_separator : is_separator link_separator ≡ true
unfolding is_separator
star_separator = refl

module _ ⦃B : Boost⦄ where
  -- The text of the record that links i to j.
  unfoldable pub link_record : Ident → Ident → Bytes
  unfolding link_string link_key
  link_record i j = link_string (link_key i (path j))

  link_words :
      (i j : Ident)
      → IsClean i
      → IsClean j
      → AllWords link_separator (path_string i ∷ path_string j ∷ [])
  link_words i j hi hj = (
    path_string-IsWord i link_separator hi star_separator refl,
    (path_string-IsWord j link_separator hj star_separator refl, tt),
  )

  pub parse-link_record :
      (i j : Ident)
      → IsClean i
      → IsClean j
      → parse link_separator (link_record i j) ≡ path_string i ∷ path_string j ∷ []
  unfolding link_record path_string
  parse-link_record i j hi hj =
      parse-string link_separator (path_string i ∷ path_string j ∷ []) (link_words i j hi hj)

  pub link_record-injective :
      (i j k l : Ident)
      → IsClean i
      → IsClean j
      → IsClean k
      → IsClean l
      → link_record i j ≡ link_record k l
      → (i ≡ k) × (j ≡ l)
  link_record-injective i j k l hi hj hk hl e =
      let q : ◌≡◌ {A = Key} (path_string i ∷ path_string j ∷ [])
          (path_string k ∷ path_string l ∷ []) =
        sym (parse-link_record i j hi hj)
        ∙ (ap (parse link_separator) e ∙ parse-link_record k l hk hl) in
      (
        path_string-injective i k hi hk (ground arith),
        path_string-injective j l hj hl (ground arith),
      )

  -- The inverted key of a link is the link from the other end.
  pub inverted-link_key :
      (i j : Ident)
      → IsClean i
      → IsClean j
      → inverted (link_key i (path j)) ≡ ok (link_key j (path i))
  unfolding inverted link_key at path_string
  inverted-link_key i j hi hj = rw (parse-path_string i hi, parse-path_string j hj)
