-- ===== src/Container/RoundTrip.antt =====
-- A commit of the attributes and the load that follows it.
use libinv.Prelude.{
  ◌≡◌, refl, true, false, List, [], ◌∷◌, Bytes, codes, none, some, lookup, contains, Strictly,
  if◌then◌else◌, arith, nat_ord, list_ord,
}
use libinv.Exception.{runtime_error}
use libinv.Exec.{ok}
use libinv.Exec.Keeps.{Keeps, Keeps-pure, Keeps-bind, unless_fails-state}
use libinv.Extern.Boost.{Boost}
use libinv.Extern.Kyoto.{Kyoto}
use libinv.Key.{attribute_separator}
use libinv.Index.{Ident}
use libinv.Index.Identity.{IsClean, all_plain, is_empty}
use libinv.Stored.{Stored, named_record, WellKeyed}
use libinv.Stored.Writes.{set-WellKeyed, remove-WellKeyed}
use libinv.Container.{
  Container, attribute_string, remove_attributes, set_attributes, get, commit, fresh,
}
use libinv.Container.Commit.{find-commit_attribute}
use libinv.Container.Get.{get-lookup}
use libinv.Container.Tokens.{attribute_string-eq}

-- No name holds a separator.
abbrev pub PlainNames : List (Bytes × Bytes) → Type 0
PlainNames [] = Unit
PlainNames ((k, v) ∷ m) = (all_plain k ≡ true) × PlainNames m

module _ ⦃B : Boost⦄ where
  attribute-Stored :
      (i : Ident) (name : Bytes)
      → IsClean i
      → all_plain name ≡ true
      → Stored (attribute_string i name)
  attribute-Stored i name h p =
      named_record attribute_separator i name refl h p (attribute_string-eq i name)

module _ ⦃B : Boost⦄ ⦃K : Kyoto⦄ where
  remove_attributes-Keeps : (i : Ident) (ks : List Bytes) → Keeps WellKeyed (remove_attributes i ks)
  unfolding remove_attributes
  remove_attributes-Keeps i [] = Keeps-pure tt
  remove_attributes-Keeps i (k ∷ ks) =
      Keeps-bind _ _
        (record {
          after = λ d w.
              let r = K.remove d (attribute_string i k) in
              rw (unless_fails-state r.0 (runtime_error (codes "Couldn't remove key")) r.1)
                (remove-WellKeyed d (attribute_string i k) w);
        })
        (λ _. remove_attributes-Keeps i ks)

  set_attributes-Keeps :
      (message : Bytes) (i : Ident) (m : List (Bytes × Bytes))
      → IsClean i
      → PlainNames m
      → Keeps WellKeyed (set_attributes message i m)
  unfolding set_attributes
  set_attributes-Keeps message i [] h p = Keeps-pure tt
  set_attributes-Keeps message i ((k, v) ∷ m) h p =
      Keeps-bind _ _
        (record {
          after = λ d w.
              let r = K.set d (attribute_string i k) v in
              rw (unless_fails-state r.0 _ r.1)
                (set-WellKeyed d (attribute_string i k) v (attribute-Stored i k h p.0) w);
        })
        (λ _. set_attributes-Keeps message i m h p.1)

  pub commit-WellKeyed_container :
      (message : Bytes) (i : Ident) (c : Container) (d : K.Db)
      → IsClean i
      → PlainNames c.attrs
      → WellKeyed d
      → WellKeyed (commit message i c d).1
  unfolding commit
  commit-WellKeyed_container message i c d h p w =
      (Keeps-bind (remove_attributes i c.delete) _ (remove_attributes-Keeps i c.delete) (λ _.
          Keeps-bind (set_attributes message i c.attrs) _
            (set_attributes-Keeps message i c.attrs h p) (λ _. Keeps-pure _))).after
        d w

  -- After a commit that returns, get of a fresh container of the same object returns, with each
  -- named attribute of the committed container at its value; of the others, it has those that were
  -- in the database and whose removal was not queued. The object is clean, the attributes are sorted
  -- by name, their names hold no separator, and the keys of the database are of the known forms.
  pub get-commit_attribute :
      (message : Bytes) (i : Ident) (h : Bytes) (c b : Container) (d : K.Db)
      → IsClean i
      → is_empty h ≡ false
      → Strictly c.attrs
      → PlainNames c.attrs
      → (commit message i c d).0 ≡ ok b
      → WellKeyed d
      → let loaded = get i (commit message i c d).1 fresh in
        (loaded.0 ≡ ok tt)
        × (lookup h loaded.1.attrs ≡ elim (lookup h c.attrs) [
          | some v ↦ some v
          | none ↦ if contains h c.delete then none else K.find d (attribute_string i h)
        ])
  unfolding lookup
  get-commit_attribute message i h c b d hi e s p done w =
      let loaded =
        get-lookup i h (commit message i c d).1 fresh hi e
          (commit-WellKeyed_container message i c d hi p w) in
      let found = find-commit_attribute message i h c b d s done in
      (loaded.0, ground (arith, loaded.1, found.0))
