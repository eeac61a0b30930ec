-- ===== src/Container/Get.antt =====
-- `get` loads exactly the attributes of the database, and so what a commit wrote.
use libinv.Prelude.{
  ℕ, ◌≡◌, ◌≢◌, refl, sym, ◌∙◌, true, false, List, [], ◌∷◌, ◌++◌, Bytes, none, some, lookup,
  list_eqb, list_eqb_iff, list_lessb, list_ord, nat_ord, arith, inl, inr, Option-cases, Above,
  Above-Has, Above-lookup, Strictly, Has-of_lookup, extension_not_below, between-prefix, lookup-put,
  if◌then◌else◌,
}
use mathlib.Core.List.{append_assoc}
use libinv.Exec.{ok}
use libinv.Extern.Boost.{Boost}
use libinv.Extern.Kyoto.{Kyoto}
use libinv.Key.{attribute_separator, parse, prefix, at}
use libinv.Key.Words.{pair-eqb, one_token}
use libinv.Index.{Ident, path_string}
use libinv.Index.Identity.{IsClean, all_plain, contains_plain, is_separator, is_empty}
use libinv.Stored.{WellKeyed}
use libinv.Stored.Cursor.{lookup-records, records-Scanned, Scanned}
use libinv.Container.{
  Container, attribute_string, is_own, keep_attribute, scan_attributes, got, on_get, get,
}
use libinv.Container.Owned.{Stored-Owned, extension-is_own}
use libinv.Container.Tokens.{attribute_string-eq}

abbrev dot : ℕ
dot = attribute_separator

module _ ⦃B : Boost⦄ where
  attribute-prefix :
      (i : Ident) (h : Bytes) → attribute_string i h ≡ prefix dot (path_string i) ++ h
  unfolding prefix
  attribute-prefix i h = attribute_string-eq i h ∙ sym (append_assoc (path_string i) (dot ∷ []) h)

  attribute-eqb :
      (i : Ident) (h k : Bytes)
      → list_eqb (attribute_string i h) (attribute_string i k) ≡ list_eqb h k
  unfolding attribute_string
  attribute-eqb i h k = pair-eqb dot (path_string i) h k

  -- What the loop does with an attribute; one without a name is passed over.
  kept_value :
      (i : Ident) (name h v : Bytes) (c : Container)
      → IsClean i
      → all_plain name ≡ true
      → is_empty h ≡ false
      → lookup h (keep_attribute (parse dot (attribute_string i name)) v c).attrs
        ≡ (if list_eqb name h then some v else lookup h c.attrs)
  unfolding keep_attribute at is_empty list_eqb lookup parse
  kept_value i [] [] v c hi p e = cc
  kept_value i [] (x ∷ h) v c hi p e =
      rw (attribute-prefix, (extension-is_own i [] hi).0, B.tokens-nil) refl
  kept_value i (y ∷ name) h v c hi p e =
      let one : parse dot (y ∷ name) ≡ (y ∷ name) ∷ [] =
        one_token dot (y ∷ name) (contains_plain dot (y ∷ name) (unfold is_separator in refl) p) in
      rw (attribute-prefix, (extension-is_own i (y ∷ name) hi).0, one)
        (lookup-put (y ∷ name) h v c.attrs)

  attributes_after :
      (i : Ident) (h k : Bytes) (rs : List (Bytes × Bytes))
      → list_lessb k (prefix dot (path_string i)) ≡ false
      → ((t : Bytes) → k ≢ prefix dot (path_string i) ++ t)
      → Above k rs
      → lookup (attribute_string i h) rs ≡ none
  attributes_after i h k rs low out above = elim (Option-cases (lookup (attribute_string i h) rs)) [
    | inl e ↦ e
    | inr (w, e) ↦
        let below : list_lessb k (attribute_string i h) ≡ true =
          Above-Has k (attribute_string i h) w rs above
            (Has-of_lookup (attribute_string i h) w rs e) in
        let (t, q) =
          between-prefix (prefix dot (path_string i)) k h low (rw attribute-prefix at below) in
        absurd (out t q)
  ]

  -- The loop ends without a throw, with exactly the values of the records.
  scan_attributes-lookup :
      (i : Ident) (h : Bytes) (rs : List (Bytes × Bytes)) (c : Container)
      → IsClean i
      → is_empty h ≡ false
      → Strictly rs
      → Scanned (prefix dot (path_string i)) rs
      → ((scan_attributes i rs c).0 ≡ ok tt)
        × (lookup h (scan_attributes i rs c).1.attrs
            ≡ elim (lookup (attribute_string i h) rs) [ none ↦ lookup h c.attrs | some v ↦ some v ])
  unfolding scan_attributes lookup
  scan_attributes-lookup i h [] c hi e sorted scanned = (refl, refl)
  scan_attributes-lookup i h ((k, v) ∷ rs) c hi e sorted scanned =
      elim (Stored-Owned i k hi scanned.1 scanned.0) [
        | inl (name, q, p) ↦
            let own : is_own i (parse dot k) ≡ ok true =
              rw (q, attribute-prefix) (extension-is_own i name hi).1 in
            let c' = keep_attribute (parse dot k) v c in
            let rest = scan_attributes-lookup i h rs c' hi e sorted.1 scanned.2 in
            let value : lookup h c'.attrs ≡ (if list_eqb name h then some v else lookup h c.attrs) =
              rw q (kept_value i name h v c hi p e) in
            let same : list_eqb k (attribute_string i h) ≡ list_eqb name h =
              rw q (attribute-eqb i name h) in
            (
              ground (arith, own, rest.0),
              ground (
                arith,
                own,
                rest.1,
                value,
                same,
                list_eqb_iff k (attribute_string i h),
                Above-lookup k rs sorted.0,
              ),
            )
        | inr (f, out) ↦ (
          ground (arith, f),
          ground (
            arith,
            f,
            attributes_after i h k rs scanned.1 out sorted.0,
            list_eqb_iff k (attribute_string i h),
            attribute-prefix i h,
            out h,
          ),
        )
      ]

module _ ⦃B : Boost⦄ ⦃K : Kyoto⦄ where
  cursor : Ident → K.Db → List (Bytes × Bytes)
  cursor i d = K.records_from d (prefix dot (path_string i))

  lookup-cursor :
      (i : Ident) (h : Bytes) (d : K.Db)
      → lookup (attribute_string i h) (cursor i d) ≡ K.find d (attribute_string i h)
  unfolding cursor
  lookup-cursor i h d =
      let pre = prefix dot (path_string i) in
      let low : list_lessb (attribute_string i h) pre ≡ false =
        rw attribute-prefix (extension_not_below pre h) in
      lookup-records d pre (attribute_string i h) low

  got-attrs :
      (i : Ident) (rs : List (Bytes × Bytes)) (c : Container)
      → (scan_attributes i rs c).0 ≡ ok tt
      → ((got i rs c).0 ≡ ok tt) × ((got i rs c).1.attrs ≡ (scan_attributes i rs c).1.attrs)
  unfolding got on_get
  got-attrs i [] c h = (refl, unfold scan_attributes in refl)
  got-attrs i (r ∷ rs) c h = (ground (arith, h), ground (arith, h))

  -- On a database whose keys are of the known forms, get of a clean object returns, with the value
  -- of each named attribute that has a record, and keeps the attributes that were known and have
  -- none.
  pub get-lookup :
      (i : Ident) (h : Bytes) (d : K.Db) (c : Container)
      → IsClean i
      → is_empty h ≡ false
      → WellKeyed d
      → ((get i d c).0 ≡ ok tt)
        × (lookup h (get i d c).1.attrs
            ≡ elim (K.find d (attribute_string i h)) [ none ↦ lookup h c.attrs | some v ↦ some v ])
  unfolding get cursor
  get-lookup i h d c hi e w =
      let rs = cursor i d in
      let scanned =
        scan_attributes-lookup i h rs c hi e (K.records_sorted d (prefix dot (path_string i)))
          (records-Scanned d (prefix dot (path_string i)) w) in
      let done = got-attrs i rs c scanned.0 in (done.0, rw (done.1, scanned.1, lookup-cursor) refl)
