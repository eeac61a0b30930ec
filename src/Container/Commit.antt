-- ===== src/Container/Commit.antt =====
-- What a commit of the attributes does to the database.
use libinv.Prelude.{
  ◌≡◌, refl, true, false, List, [], ◌∷◌, Bytes, codes, none, some, is_some, lookup, contains,
  list_eqb, list_eqb_iff, nat_ord, list_ord, Above-lookup, Strictly, if◌then◌else◌, arith, inl, inr,
  Option-cases, lookup-put,
}
use libinv.Exception.{runtime_error}
use libinv.Exec.{ok, err}
use libinv.Extern.Boost.{Boost}
use libinv.Extern.Kyoto.{Kyoto, IsReliable}
use libinv.Key.{attribute_separator}
use libinv.Key.Words.{pair-eqb}
use libinv.Index.{Ident, path_string}
use libinv.Container.{
  Container, attribute_string, remove_attributes, set_attributes, commit, on_commit, assign,
  remove_attribute,
}

module _ ⦃B : Boost⦄ ⦃K : Kyoto⦄ where
  remove_attributes-find :
      (i : Ident) (h : Bytes) (ks : List Bytes) (d : K.Db)
      → (remove_attributes i ks d).0 ≡ ok tt
      → K.find (remove_attributes i ks d).1 (attribute_string i h)
        ≡ (if contains h ks then none else K.find d (attribute_string i h))
  unfolding remove_attributes contains attribute_string
  remove_attributes-find i h [] d e = refl
  remove_attributes-find i h (k ∷ ks) d e =
      let x = K.remove d (attribute_string i k) in
      ground (
        arith,
        K.find-remove d (attribute_string i k) (attribute_string i h),
        pair-eqb attribute_separator (path_string i) k h,
        remove_attributes-find i h ks x.1,
      )

  set_attributes-find :
      (message : Bytes) (i : Ident) (h : Bytes) (m : List (Bytes × Bytes)) (d : K.Db)
      → Strictly m
      → (set_attributes message i m d).0 ≡ ok tt
      → K.find (set_attributes message i m d).1 (attribute_string i h)
        ≡ elim (lookup h m) [ none ↦ K.find d (attribute_string i h) | some v ↦ some v ]
  unfolding set_attributes lookup attribute_string
  set_attributes-find message i h [] d s e = refl
  set_attributes-find message i h ((k, v) ∷ m) d s e =
      let x = K.set d (attribute_string i k) v in
      ground (
        arith,
        K.find-set d (attribute_string i k) v (attribute_string i h),
        pair-eqb attribute_separator (path_string i) k h,
        Above-lookup k m s.0,
        list_eqb_iff k h,
        set_attributes-find message i h m x.1 s.1,
      )

  -- After a commit that returns, the record of an attribute has the value that the container has,
  -- is gone where the container does not have the attribute and its removal was queued, and is
  -- what it was otherwise; the container has no more removals queued. The attributes are sorted by
  -- name.
  pub find-commit_attribute :
      (message : Bytes) (i : Ident) (h : Bytes) (c b : Container) (d : K.Db)
      → Strictly c.attrs
      → (commit message i c d).0 ≡ ok b
      → (K.find (commit message i c d).1 (attribute_string i h) ≡ elim (lookup h c.attrs) [
        | some v ↦ some v
        | none ↦ if contains h c.delete then none else K.find d (attribute_string i h)
      ])
        × (b ≡ on_commit c)
  unfolding commit
  find-commit_attribute message i h c b d s e =
      let x = remove_attributes i c.delete d in
      (
        ground (
          arith,
          remove_attributes-find i h c.delete d,
          set_attributes-find message i h c.attrs x.1 s,
        ),
        ground arith,
      )

  -- The names are all different, and each has its record.
  abbrev pub Recorded : K.Db → Ident → List Bytes → Type 0
  Recorded d i [] = Unit
  Recorded d i (k ∷ ks) =
      (is_some (K.find d (attribute_string i k)) ≡ true) × (contains k ks ≡ false) × Recorded d i ks

  other_records :
      (d e : K.Db) (i : Ident) (k : Bytes) (ks : List Bytes)
      → ((h : Bytes)
          → K.find e (attribute_string i h)
            ≡ (if list_eqb k h then none else K.find d (attribute_string i h)))
      → contains k ks ≡ false
      → Recorded d i ks
      → Recorded e i ks
  unfolding contains
  other_records d e i k [] f n r = tt
  other_records d e i k (h ∷ ks) f n r = (
    ground (arith, f h, list_eqb_iff k h, list_eqb_iff h k),
    r.1,
    other_records d e i k ks f (ground arith) r.2,
  )

  remove_attributes-returns :
      (i : Ident) (ks : List Bytes) (d : K.Db)
      → IsReliable K
      → Recorded d i ks
      → (remove_attributes i ks d).0 ≡ ok tt
  unfolding remove_attributes attribute_string
  remove_attributes-returns i [] d r p = refl
  remove_attributes-returns i (k ∷ ks) d r p =
      elim (Option-cases (K.find d (attribute_string i k))) [
        | inl n ↦ ground (arith, p.0)
        | inr (v, n) ↦
            let x = K.remove d (attribute_string i k) in
            let gone = r.remove_succeeds d (attribute_string i k) v n in
            let rest =
              other_records d x.1 i k ks
                (λ h. ground (
                  arith,
                  K.find-remove d (attribute_string i k) (attribute_string i h) gone,
                  pair-eqb attribute_separator (path_string i) k h,
                ))
                p.1 p.2 in
            ground (arith, gone, remove_attributes-returns i ks x.1 r rest)
      ]

  set_attributes-returns :
      (message : Bytes) (i : Ident) (m : List (Bytes × Bytes)) (d : K.Db)
      → IsReliable K
      → (set_attributes message i m d).0 ≡ ok tt
  unfolding set_attributes
  set_attributes-returns message i [] d r = refl
  set_attributes-returns message i ((k, v) ∷ m) d r =
      let x = K.set d (attribute_string i k) v in
      ground
        (arith, r.set_succeeds d (attribute_string i k) v, set_attributes-returns message i m x.1 r)

  -- On a database that meets no error, the commit returns, with no more removals queued, where the
  -- names queued for removal are all different and each has its record.
  pub commit-returns_container :
      (message : Bytes) (i : Ident) (c : Container) (d : K.Db)
      → IsReliable K
      → Recorded d i c.delete
      → (commit message i c d).0 ≡ ok (on_commit c)
  unfolding commit
  commit-returns_container message i c d r p =
      let x = remove_attributes i c.delete d in
      ground (
        arith,
        remove_attributes-returns i c.delete d r p,
        set_attributes-returns message i c.attrs x.1 r,
      )

  -- An attribute without a record is set and then removed, in a container with no removals queued:
  -- the next commit throws and changes nothing.
  pub unsaved_removal_throws :
      (message : Bytes) (i : Ident) (k v : Bytes) (c : Container) (d : K.Db)
      → c.delete ≡ []
      → K.find d (attribute_string i k) ≡ none
      → commit message i (remove_attribute k (assign k v c)) d
        ≡ (err (runtime_error (codes "Couldn't remove key")), d)
  unfolding commit remove_attribute assign remove_attributes
  unsaved_removal_throws message i k v c d e n =
      let gone = K.remove_missing d (attribute_string i k) n in
      ground (
        arith,
        lookup-put k k v c.attrs,
        list_eqb_iff k k,
        gone,
        K.remove_failed d (attribute_string i k) gone,
      )
