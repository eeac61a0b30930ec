-- ===== src/Stored/Cursor.antt =====
-- A cursor that jumps to a text gives each record that is not below the text, and no other.
use libinv.Prelude.{
  ◌≡◌, refl, sym, ◌∙◌, false, Bytes, lookup, list_lessb, list_ord, nat_ord, inl, inr, Option-cases,
  Has, Has-of_lookup, lookup_of_Has, List, [], ◌∷◌,
}
use libinv.Extern.Boost.{Boost}
use libinv.Stored.{Stored, WellKeyed}
use libinv.Extern.Kyoto.{Kyoto}

module _ ⦃K : Kyoto⦄ where
  pub lookup-records :
      (d : K.Db) (pre k : Bytes)
      → list_lessb k pre ≡ false
      → lookup k (K.records_from d pre) ≡ K.find d k
  lookup-records d pre k low = elim (Option-cases (lookup k (K.records_from d pre))) [
    | inl e ↦ elim (Option-cases (K.find d k)) [
      | inl f ↦ e ∙ sym f
      | inr (v, f) ↦
          lookup_of_Has k v (K.records_from d pre) (K.records_sorted d pre)
            (K.records_complete d pre k v f low)
          ∙ sym f
    ]
    | inr (v, e) ↦
        e ∙ sym (K.records_sound d pre k v (Has-of_lookup k v (K.records_from d pre) e)).0
  ]

-- Records of stored keys, none below a text.
abbrev pub Scanned : ⦃B : Boost⦄ → Bytes → List (Bytes × Bytes) → Type 0
Scanned pre [] = Unit
Scanned pre ((k, v) ∷ rs) = Stored k × (list_lessb k pre ≡ false) × Scanned pre rs

module _ ⦃B : Boost⦄ where
  Scanned-of :
      (pre : Bytes) (rs : List (Bytes × Bytes))
      → ((k v : Bytes) → Has k v rs → Stored k × (list_lessb k pre ≡ false))
      → Scanned pre rs
  Scanned-of pre [] h = tt
  Scanned-of pre ((k, v) ∷ rs) h =
      let p = h k v (inl (refl, refl)) in (p.0, p.1, Scanned-of pre rs (λ j w m. h j w (inr m)))

module _ ⦃B : Boost⦄ ⦃K : Kyoto⦄ where
  pub records-Scanned : (d : K.Db) (pre : Bytes) → WellKeyed d → Scanned pre (K.records_from d pre)
  records-Scanned d pre w =
      Scanned-of pre (K.records_from d pre)
        (λ k v m. let s = K.records_sound d pre k v m in (w k v s.0, s.1))
