-- ===== src/Association/Scan.antt =====
-- What the cursor loop of `get` collects: the links of the object that the database holds.
use libinv.Prelude.{
  ℕ, ◌≡◌, ◌≢◌, refl, ap, sym, ◌∙◌, true, false, ◌||◌, List, [], ◌∷◌, ◌++◌, Bytes, none, some,
  is_some, contains, contains-insert, insert, lookup, list_eqb, list_eqb_iff, list_lessb, list_ord,
  nat_ord, arith, Bool-cases, Bool-ext, inl, inr, ◌⊎◌, ◌==◌, ==_iff, Option-cases, Above, Strictly,
  Above-Has, Has-of_lookup, between-prefix,
}
use mathlib.Core.List.{append_assoc}
use libinv.Extern.Boost.{Boost}
use libinv.Key.{Key, index_separator, link_separator, key_eqb, parse, string, prefix}
use libinv.Index.{Ident, path, path_string}
use libinv.Key.Words.{parse_word}
use libinv.Index.Identity.{
  IsClean, contains_plain, parse-path_string, path_string-IsWord, path_free, path_string-injective,
  contains-append, contains_tail,
}
use libinv.Stored.{Stored, index_record, global_record, pair_record, named_record}
use libinv.Stored.Cursor.{Scanned}
use libinv.Association.{link_key, link_string, link_of, scan_links}
use libinv.Association.Links.{link_record, link_record-injective, parse-link_record, star_separator}

abbrev star : ℕ
star = link_separator

contains-star : (v w : Bytes) → contains star (v ++ star ∷ w) ≡ true
unfolding contains
contains-star [] w = refl
contains-star (x ∷ v) w = ground (arith, contains-star v w)

module _ ⦃B : Boost⦄ where
  pub link_record-eq : (i j : Ident) → link_record i j ≡ path_string i ++ star ∷ path_string j
  unfolding link_record string path_string
  link_record-eq i j = rw (B.join_more, B.join_one)

  -- A text without a star is one token, and no link.
  link_of_free : (i : Ident) (k : Bytes) → contains star k ≡ false → link_of i (parse star k) ≡ none
  unfolding link_of parse
  link_of_free i [] h = rw (B.tokens-nil star)
  link_of_free i (x ∷ k) h = rw (B.tokens_last star x k h)

  -- A key under the prefix of i, or not.
  abbrev Linked : Ident → Bytes → Type 0
  Linked i k =
      ((j : Ident) × IsClean j × (k ≡ link_record i j) × (link_of i (parse star k) ≡ some (path j)))
      ⊎ ((link_of i (parse star k) ≡ none) × ((t : Bytes) → k ≢ prefix star (path_string i) ++ t))

  not_prefixed :
      (i : Ident) (k t : Bytes) → contains star k ≡ false → k ≢ prefix star (path_string i) ++ t
  unfolding prefix
  not_prefixed i k t h e =
      let q : contains star ((path_string i ++ star ∷ []) ++ t) ≡ false = rw e at h in
      cc (contains-star (path_string i) t, q, append_assoc (path_string i) (star ∷ []) t)

  free_Linked : (i : Ident) (k : Bytes) → contains star k ≡ false → Linked i k
  free_Linked i k h = inr (link_of_free i k h, λ t. not_prefixed i k t h)

  -- The first token of a text under the prefix of i is the path of i.
  first_token :
      (i : Ident) (t : Bytes)
      → IsClean i
      → parse star (prefix star (path_string i) ++ t) ≡ path_string i ∷ parse star t
  unfolding prefix
  first_token i t h =
      rw (append_assoc (path_string i) (star ∷ []) t)
        (parse_word star (path_string i) t (path_string-IsWord i star h star_separator refl))

  pair_other :
      (i k j : Ident) (t : Bytes)
      → IsClean i
      → IsClean k
      → key_eqb (path k) (path i) ≡ false
      → parse star (prefix star (path_string i) ++ t) ≡ path_string k ∷ path_string j ∷ []
      → ⊥
  pair_other i k j t hi hk e q =
      let heads : path_string i ≡ path_string k = cc (first_token i t hi, q) in
      let same : path k ≡ path i =
        sym (parse-path_string k hk)
        ∙ (ap (parse index_separator) (sym heads) ∙ parse-path_string i hi) in
      cc (e, (list_eqb_iff (path k) (path i)).1 same)

  -- The key of a link from k to j, seen from i.
  pair_Linked : (i k j : Ident) → IsClean i → IsClean k → IsClean j → Linked i (link_record k j)
  unfolding link_of
  pair_Linked i k j hi hk hj = elim (Bool-cases (key_eqb (path k) (path i))) [
    | inl e ↦
        let same : k ≡ i = path_string-injective k i hk hi (
          unfold path_string in
          ap (string index_separator) ((list_eqb_iff (path k) (path i)).0 e)) in
        inl (
          j,
          hj,
          rw same,
          rw (parse-link_record k j hk hj, parse-path_string k hk, parse-path_string j hj, e),
        )
    | inr e ↦ inr (
      rw (parse-link_record k j hk hj, parse-path_string k hk, e),
      λ t q. pair_other i k j t hi hk e (rw q at (parse-link_record k j hk hj)),
    )
  ]

  -- Each key that the program stores is a link of i, or leaves the loop and has not the prefix of i.
  Stored-Linked : (i : Ident) (k : Bytes) → IsClean i → Stored k → Linked i k
  Stored-Linked i k hi (index_record j hj e) =
      free_Linked i k (rw e (path_free j star hj star_separator refl))
  Stored-Linked i k hi (global_record p) = free_Linked i k (contains_plain star k star_separator p)
  Stored-Linked i k hi (pair_record c j l s hj hl e) = elim (Bool-cases (c == star)) [
    | inl q ↦ rw (e, (==_iff c star).0 q, ← link_record-eq j l) (pair_Linked i j l hi hj hl)
    | inr q ↦ free_Linked i k (
        rw e (
          contains-append star (path_string j) (c ∷ path_string l)
            (path_free j star hj star_separator refl)
            (contains_tail star c (path_string l) q (path_free l star hl star_separator refl))))
  ]
  Stored-Linked i k hi (named_record c j name s hj p e) = free_Linked i k (
      rw e (
        contains-append star (path_string j) (c ∷ name) (path_free j star hj star_separator refl)
          (contains_tail star c name (ground arith) (contains_plain star name star_separator p))))

  pub link_record-prefix :
      (i j : Ident) → link_record i j ≡ prefix star (path_string i) ++ path_string j
  unfolding prefix
  link_record-prefix i j =
      link_record-eq i j ∙ sym (append_assoc (path_string i) (star ∷ []) (path_string j))

  -- No key after one that is not under the prefix of i is a link of i.
  links_after :
      (i j : Ident) (k : Bytes) (rs : List (Bytes × Bytes))
      → list_lessb k (prefix star (path_string i)) ≡ false
      → ((t : Bytes) → k ≢ prefix star (path_string i) ++ t)
      → Above k rs
      → lookup (link_record i j) rs ≡ none
  links_after i j k rs low out above = elim (Option-cases (lookup (link_record i j) rs)) [
    | inl e ↦ e
    | inr (w, e) ↦
        let below : list_lessb k (link_record i j) ≡ true =
          Above-Has k (link_record i j) w rs above (Has-of_lookup (link_record i j) w rs e) in
        let (t, q) =
          between-prefix (prefix star (path_string i)) k (path_string j) low
            (rw link_record-prefix at below) in
        absurd (out t q)
  ]

  pub link_eqb :
      (i l j : Ident)
      → IsClean i
      → IsClean l
      → IsClean j
      → list_eqb (link_record i l) (link_record i j) ≡ key_eqb (path l) (path j)
  link_eqb i l j hi hl hj =
      Bool-ext (list_eqb (link_record i l) (link_record i j)) (key_eqb (path l) (path j))
        (λ e. (list_eqb_iff (path l) (path j)).1 (
          ap path
            (link_record-injective i l i j hi hl hi hj
              ((list_eqb_iff (link_record i l) (link_record i j)).0 e)).1))
        (λ e. (list_eqb_iff (link_record i l) (link_record i j)).1 (
          unfold link_record in
          ap (λ p. link_string (link_key i p)) ((list_eqb_iff (path l) (path j)).0 e)))

  -- The loop adds exactly the identities whose link is among the records.
  pub scan_links-contains :
      (i j : Ident) (rs : List (Bytes × Bytes)) (s : List Key)
      → IsClean i
      → IsClean j
      → Strictly rs
      → Scanned (prefix star (path_string i)) rs
      → contains (path j) (scan_links i rs s)
        ≡ (contains (path j) s || is_some (lookup (link_record i j) rs))
  unfolding scan_links lookup
  scan_links-contains i j [] s hi hj sorted scanned = ground arith
  scan_links-contains i j ((k, v) ∷ rs) s hi hj sorted scanned =
      elim (Stored-Linked i k hi scanned.0) [
        | inl (l, hl, e, f) ↦ ground (
          arith,
          f,
          e,
          link_eqb i l j hi hl hj,
          contains-insert (path l) (path j) s,
          scan_links-contains i j rs (insert (path l) s) hi hj sorted.1 scanned.2,
        )
        | inr (f, out) ↦ ground (
          arith,
          f,
          links_after i j k rs scanned.1 out sorted.0,
          list_eqb_iff k (link_record i j),
          link_record-prefix i j,
          out (path_string j),
        )
      ]
