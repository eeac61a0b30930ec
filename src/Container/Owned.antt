-- ===== src/Container/Owned.antt =====
-- Which records the cursor loop of `get` takes for attributes of the object: of the keys that the
-- program stores, those under the prefix of the object.
use libinv.Prelude.{
  ℕ, ◌≡◌, ◌≢◌, refl, ap, sym, ◌∙◌, true, false, [], ◌∷◌, ◌++◌, Bytes, list_eqb, list_eqb_iff,
  list_lessb, list_ord, nat_ord, arith, subst, Bool-cases, inl, inr, ◌⊎◌, ◌==◌, ==_iff, ◌&&◌,
}
use mathlib.Core.List.{append_assoc}
use libinv.Exec.{ok}
use libinv.Extern.Boost.{Boost}
use libinv.Key.{Key, index_separator, parse, prefix, at}
use libinv.Key.Words.{parse_word, below_extension, differs, word, nil_low, one_token, first_holds}
use libinv.Index.{Ident, path, path_string, db_key_match, prefix_match}
use libinv.Index.Identity.{
  IsClean, Clean-parts, is_separator, contains_plain, parse-path_string, path_string-IsWord,
  path_string-eq, path-AllWords, contains-append, contains_tail, all_plain,
}
use libinv.Stored.{Stored, index_record, global_record, pair_record, named_record}
use libinv.Container.{attribute_string, is_own}
use libinv.Container.Tokens.{
  attribute_string-eq, db_key_match-two, dot, is_own-token, name_sep, no_dot, pair_sep,
}

module _ ⦃B : Boost⦄ where
  below_prefix : (i : Ident) → list_lessb (path_string i) (prefix dot (path_string i)) ≡ true
  unfolding prefix
  below_prefix i = below_extension (path_string i) [] dot

  -- A key under the prefix of i is its own.
  pub extension-is_own :
      (i : Ident) (t : Bytes)
      → IsClean i
      → (parse dot (prefix dot (path_string i) ++ t) ≡ path_string i ∷ parse dot t)
        × (is_own i (parse dot (prefix dot (path_string i) ++ t)) ≡ ok true)
  unfolding prefix path is_separator
  extension-is_own i t h =
      let e : parse dot ((path_string i ++ dot ∷ []) ++ t) ≡ path_string i ∷ parse dot t =
        rw (append_assoc (path_string i) (dot ∷ []) t)
          (parse_word dot (path_string i) t (path_string-IsWord i dot h refl refl)) in
      (
        e,
        is_own-token i ((path_string i ++ dot ∷ []) ++ t) (path_string i) (parse dot t) e
            ∙ (db_key_match-two i (path_string i) i.type i.id [] (parse-path_string i h)
                ∙ ground (arith, list_eqb_iff i.type i.type, list_eqb_iff i.id i.id)),
      )

  -- An attribute of i, or a key that ends the loop.
  abbrev pub Owned : Ident → Bytes → Type 0
  Owned i k =
      ((name : Bytes) × (k ≡ attribute_string i name) × (all_plain name ≡ true))
      ⊎ ((is_own i (parse dot k) ≡ ok false) × ((t : Bytes) → k ≢ prefix dot (path_string i) ++ t))

  foreign : (i : Ident) (k : Bytes) → IsClean i → is_own i (parse dot k) ≡ ok false → Owned i k
  foreign i k h e = inr (e, λ t q. cc (rw q at e, (extension-is_own i t h).1))

  -- Another object's path in front.
  other_path :
      (i j : Ident) (k : Bytes) (ks : Key)
      → IsClean i
      → IsClean j
      → parse dot k ≡ path_string j ∷ ks
      → (list_eqb j.type i.type && list_eqb j.id i.id) ≡ false
      → Owned i k
  unfolding path
  other_path i j k ks hi hj e n = foreign i k hi (
      is_own-token i k (path_string j) ks e
      ∙ (db_key_match-two i (path_string j) j.type j.id [] (parse-path_string j hj) ∙ ap ok n))

  same_ident : (i j : Ident) → (list_eqb j.type i.type && list_eqb j.id i.id) ≡ true → j ≡ i
  same_ident i j e = ground (arith, e, list_eqb_iff j.type i.type, list_eqb_iff j.id i.id)

  -- A path that goes on behind another separator.
  longer_path :
      (i j : Ident) (c : ℕ) (r : Bytes)
      → IsClean i
      → IsClean j
      → is_separator c ≡ true
      → (c == index_separator) ≡ false
      → parse dot (path_string j ++ c ∷ r) ≡ (path_string j ++ c ∷ r) ∷ []
      → Owned i (path_string j ++ c ∷ r)
  longer_path i j c r hi hj s n e =
      let cj = Clean-parts j hj in
      let (y, ks, q, m) =
        first_holds index_separator c j.id r
          (contains_plain index_separator j.id (unfold is_separator in refl) cj.id_plain) n in
      let two : parse index_separator (path_string j ++ c ∷ r) ≡ j.type ∷ y ∷ ks =
        rw (path_string-eq, append_assoc j.type (index_separator ∷ j.id) (c ∷ r))
          (parse_word index_separator j.type (j.id ++ c ∷ r) (unfold path in (path-AllWords j hj).0)
            ∙ ap (λ z. j.type ∷ z) q) in
      let no : list_eqb y i.id ≡ false =
        differs c y i.id m (contains_plain c i.id s (Clean-parts i hi).id_plain) in
      foreign i (path_string j ++ c ∷ r) hi (
        is_own-token i (path_string j ++ c ∷ r) (path_string j ++ c ∷ r) [] e
        ∙ (db_key_match-two i (path_string j ++ c ∷ r) j.type y ks two ∙ ground (arith, no)))

  -- A path that is not below the prefix is another one; and so with the type.
  path_not_low :
      (i j : Ident)
      → list_lessb (path_string j) (prefix dot (path_string i)) ≡ false
      → (list_eqb j.type i.type && list_eqb j.id i.id) ≡ false
  path_not_low i j low = elim (Bool-cases (list_eqb j.type i.type && list_eqb j.id i.id)) [
    | inl e ↦ absurd (
        let same = same_ident i j e in
        let q : list_lessb (path_string i) (prefix dot (path_string i)) ≡ false =
          subst (λ z. list_lessb (path_string z) (prefix dot (path_string i)) ≡ false) same low in
        cc (q, below_prefix i))
    | inr e ↦ e
  ]

  type_not_low :
      (i : Ident) (k : Bytes)
      → list_lessb k (prefix dot (path_string i)) ≡ false
      → list_eqb k i.type ≡ false
  unfolding prefix
  type_not_low i k low = elim (Bool-cases (list_eqb k i.type)) [
    | inl e ↦ absurd (
        let q : list_lessb i.type (path_string i ++ dot ∷ []) ≡ false =
          rw ((list_eqb_iff k i.type).0 e) at low in
        let q' : list_lessb i.type (i.type ++ index_separator ∷ (i.id ++ dot ∷ [])) ≡ false =
          rw (path_string-eq, append_assoc i.type (index_separator ∷ i.id) (dot ∷ [])) at q in
        cc (q', below_extension i.type (i.id ++ dot ∷ []) index_separator))
    | inr e ↦ e
  ]

  global_Owned :
      (i : Ident) (k : Bytes)
      → IsClean i
      → list_lessb k (prefix dot (path_string i)) ≡ false
      → all_plain k ≡ true
      → Owned i k
  unfolding db_key_match prefix_match at prefix
  global_Owned i [] hi low p = absurd (nil_low dot (path_string i) low)
  global_Owned i (x ∷ w) hi low p =
      let dots = contains_plain dot (x ∷ w) (unfold is_separator in refl) p in
      let colons = contains_plain index_separator (x ∷ w) (unfold is_separator in refl) p in
      foreign i (x ∷ w) hi (
        is_own-token i (x ∷ w) (x ∷ w) [] (one_token dot (x ∷ w) dots)
        ∙ ground (arith, one_token index_separator (x ∷ w) colons, type_not_low i (x ∷ w) low))

  -- Each stored key that is not below the prefix is an attribute of i, or ends the loop.
  pub Stored-Owned :
      (i : Ident) (k : Bytes)
      → IsClean i
      → list_lessb k (prefix dot (path_string i)) ≡ false
      → Stored k
      → Owned i k
  Stored-Owned i k hi low (index_record j hj e) = rw e (
      other_path i j (path_string j) [] hi hj
        (one_token dot (path_string j)
          (path_string-IsWord j dot hj (unfold is_separator in refl) refl))
        (path_not_low i j (rw e at low)))
  Stored-Owned i k hi low (global_record p) = global_Owned i k hi low p
  Stored-Owned i k hi low (pair_record c j l s hj hl e) = rw e (
      longer_path i j c (path_string l) hi hj (pair_sep c s).0 (pair_sep c s).1 (
        one_token dot (path_string j ++ c ∷ path_string l) (
          word dot c (path_string j) (path_string l) (
            contains-append dot (path_string j) (c ∷ path_string l) (no_dot j hj)
              (contains_tail dot c (path_string l) (pair_sep c s).2 (no_dot l hl))))))
  Stored-Owned i k hi low (named_record c j name s hj p e) = elim (Bool-cases (c == dot)) [
    | inl q ↦ elim (Bool-cases (list_eqb j.type i.type && list_eqb j.id i.id)) [
      | inl same ↦ inl (
        name,
        e
            ∙ (ap (λ z. path_string j ++ z ∷ name) ((==_iff c dot).0 q)
                ∙ (ap (λ z. path_string z ++ dot ∷ name) (same_ident i j same)
                    ∙ sym (attribute_string-eq i name))),
        p,
      )
      | inr other ↦
          rw (e, (==_iff c dot).0 q)
            (other_path i j (path_string j ++ dot ∷ name) (parse dot name) hi hj
              (parse_word dot (path_string j) name
                (path_string-IsWord j dot hj (unfold is_separator in refl) refl))
              other)
    ]
    | inr q ↦ rw e (
        longer_path i j c name hi hj (name_sep c s).0 (name_sep c s).1 (
          one_token dot (path_string j ++ c ∷ name) (
            word dot c (path_string j) name (
              contains-append dot (path_string j) (c ∷ name) (no_dot j hj) (
                contains_tail dot c name q
                  (contains_plain dot name (unfold is_separator in refl) p))))))
  ]
