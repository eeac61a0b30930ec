-- ===== src/Modes/Scan.antt =====
-- What the cursor loop of `get_modes` collects: the modes of the object that the database holds.
use libinv.Prelude.{
  ℕ, ◌≡◌, ◌≢◌, refl, ap, sym, ◌∙◌, true, false, List, [], ◌∷◌, ◌++◌, Bytes, contains, list_eqb,
  list_eqb_iff, list_lessb, list_ord, nat_ord, arith, subst, inl, inr, ◌⊎◌, ◌==◌, ==_iff,
  Bool-cases,
}
use mathlib.Core.List.{append_assoc}
use libinv.Exec.{ok}
use libinv.Extern.Boost.{Boost}
use libinv.Key.{mode_separator, parse, string, prefix, at}
use libinv.Key.Words.{parse_word, below_extension, nil_low, one_token}
use libinv.Index.{Ident, path_string}
use libinv.Index.Identity.{
  IsClean, is_separator, contains_plain, path_string-IsWord, path_free, contains-append,
  contains_tail, all_plain,
}
use libinv.Stored.{Stored, index_record, global_record, pair_record, named_record, pair_separator}
use libinv.Modes.{mode_string}

abbrev pub percent : ℕ
percent = mode_separator

pub percent_separator : is_separator percent ≡ true
unfolding is_separator
percent_separator = refl

pair_percent : (c : ℕ) → pair_separator c ≡ true → (c == percent) ≡ false
pair_percent c s = ground arith

module _ ⦃B : Boost⦄ where
  pub mode_string-eq : (i : Ident) (h : Bytes) → mode_string i h ≡ path_string i ++ percent ∷ h
  unfolding mode_string string
  mode_string-eq i h = rw (B.join_more, B.join_one)

  pub mode_string-prefix :
      (i : Ident) (h : Bytes) → mode_string i h ≡ prefix percent (path_string i) ++ h
  unfolding prefix
  mode_string-prefix i h = mode_string-eq i h ∙ sym (append_assoc (path_string i) (percent ∷ []) h)

  pub first_token :
      (i : Ident) (t : Bytes)
      → IsClean i
      → parse percent (prefix percent (path_string i) ++ t) ≡ path_string i ∷ parse percent t
  unfolding prefix
  first_token i t h =
      rw (append_assoc (path_string i) (percent ∷ []) t) (
        parse_word percent (path_string i) t
          (path_string-IsWord i percent h percent_separator refl))

  -- A mode of i, or a key that ends the loop.
  abbrev pub Owned : Ident → Bytes → Type 0
  Owned i k =
      ((name : Bytes) × (k ≡ mode_string i name) × (all_plain name ≡ true))
      ⊎ ((t : Bytes) × (at (parse percent k) 0 ≡ ok t)
          × (list_eqb t (path_string i) ≡ false)
          × ((u : Bytes) → k ≢ prefix percent (path_string i) ++ u))

  foreign :
      (i : Ident) (k t : Bytes) (ks : List Bytes)
      → IsClean i
      → parse percent k ≡ t ∷ ks
      → list_eqb t (path_string i) ≡ false
      → Owned i k
  unfolding at
  foreign i k t ks h e n = inr (
    t,
    rw e,
    n,
    λ u q.
        let p : parse percent (prefix percent (path_string i) ++ u) ≡ t ∷ ks = rw q at e in
        ground (arith, first_token i u h, list_eqb_iff t (path_string i)),
  )

  -- A key without the separator is one token, and not the path, which is below the prefix.
  whole_key :
      (i : Ident) (k : Bytes)
      → IsClean i
      → list_lessb k (prefix percent (path_string i)) ≡ false
      → contains percent k ≡ false
      → Owned i k
  unfolding prefix
  whole_key i [] h low n = absurd (nil_low percent (path_string i) low)
  whole_key i (x ∷ k) h low n =
      foreign i (x ∷ k) (x ∷ k) [] h (one_token percent (x ∷ k) n)
        (elim (Bool-cases (list_eqb (x ∷ k) (path_string i))) [
          | inl e ↦ absurd (
              let same = (list_eqb_iff (x ∷ k) (path_string i)).0 e in
              let q : list_lessb (path_string i) (path_string i ++ percent ∷ []) ≡ false =
                subst (λ z. list_lessb z (path_string i ++ percent ∷ []) ≡ false) same low in
              cc (q, below_extension (path_string i) [] percent))
          | inr e ↦ e
        ])

  no_percent : (j : Ident) → IsClean j → contains percent (path_string j) ≡ false
  no_percent j h = path_free j percent h percent_separator refl

  pub Stored-Owned :
      (i : Ident) (k : Bytes)
      → IsClean i
      → list_lessb k (prefix percent (path_string i)) ≡ false
      → Stored k
      → Owned i k
  Stored-Owned i k hi low (index_record j hj e) = whole_key i k hi low (rw e (no_percent j hj))
  Stored-Owned i k hi low (global_record p) =
      whole_key i k hi low (contains_plain percent k percent_separator p)
  Stored-Owned i k hi low (pair_record c j l s hj hl e) = whole_key i k hi low (
      rw e (
        contains-append percent (path_string j) (c ∷ path_string l) (no_percent j hj)
          (contains_tail percent c (path_string l) (pair_percent c s) (no_percent l hl))))
  Stored-Owned i k hi low (named_record c j name s hj p e) = elim (Bool-cases (c == percent)) [
    | inl q ↦ elim (Bool-cases (list_eqb (path_string j) (path_string i))) [
      | inl same ↦ inl (
        name,
        e
            ∙ (ap (λ z. path_string j ++ z ∷ name) ((==_iff c percent).0 q)
                ∙ (ap (λ z. z ++ percent ∷ name)
                      ((list_eqb_iff (path_string j) (path_string i)).0 same)
                    ∙ sym (mode_string-eq i name))),
        p,
      )
      | inr other ↦
          foreign i k (path_string j) (parse percent name) hi
            (rw (e, (==_iff c percent).0 q)
              (parse_word percent (path_string j) name
                (path_string-IsWord j percent hj percent_separator refl)))
            other
    ]
    | inr q ↦ whole_key i k hi low (
        rw e (
          contains-append percent (path_string j) (c ∷ name) (no_percent j hj)
            (contains_tail percent c name q (contains_plain percent name percent_separator p))))
  ]
