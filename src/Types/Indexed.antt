-- ===== src/Types/Indexed.antt =====
-- The index record of an object at the end of its commit: no other part writes its key, which holds
-- none of their separators.
use libinv.Prelude.{
  ◌≡◌, refl, ap, ◌==◌, ◌∙◌, true, false, ℕ, List, [], ◌∷◌, Bytes, Option, some, is_some, contains,
  list_eqb_iff, nat_ord, list_ord, Bool-cases, inl, inr, arith,
}
use libinv.Exec.{ok}
use libinv.Exec.Keeps.{Keeps, Keeps-pure, Keeps-bind, unless_fails-state}
use libinv.Stored.Frame.{Holds}
use libinv.Key.Words.{differs}
use libinv.Extern.Boost.{Boost}
use libinv.Extern.Kyoto.{Kyoto, IsReliable}
use libinv.Key.{index_separator, link_separator, attribute_separator, mode_separator}
use libinv.Index.{Ident, path, path_string}
use libinv.Index
use libinv.Index.Identity.{is_separator, path_free}
use libinv.Mode
use libinv.Modes.{ModeMap, Modes, mode_string, drop_modes, write_modes, commit_modes}
use libinv.Association.{Association}
use libinv.Association
use libinv.Association.Links.{link_record}
use libinv.Association.Commit.{find-commit, touched}
use libinv.Container.{Container, attribute_string, remove_attributes, set_attributes}
use libinv.Container
use libinv.Types.Stages.{
  Prepared, indexed, moded, linked, written, link_holds, mode_holds, attribute_holds,
}

module _ ⦃B : Boost⦄ ⦃K : Kyoto⦄ (k : Bytes) where
  set_kept :
      (c : ℕ) (w v : Bytes) (d : K.Db)
      → contains c w ≡ true
      → contains c k ≡ false
      → K.find (K.set d w v).1 k ≡ K.find d k
  set_kept c w v d h n = elim (Bool-cases (K.set d w v).0) [
    | inl e ↦ ground (arith, K.find-set d w v k e, list_eqb_iff w k)
    | inr e ↦ ground (arith, K.set_failed d w v e)
  ]

  remove_kept :
      (c : ℕ) (w : Bytes) (d : K.Db)
      → contains c w ≡ true
      → contains c k ≡ false
      → K.find (K.remove d w).1 k ≡ K.find d k
  remove_kept c w d h n = elim (Bool-cases (K.remove d w).0) [
    | inl e ↦ ground (arith, K.find-remove d w k e, list_eqb_iff w k)
    | inr e ↦ ground (arith, K.remove_failed d w e)
  ]

  drop_modes-kept :
      (i : Ident) (ms : ModeMap) (d : K.Db)
      → contains mode_separator k ≡ false
      → K.find (drop_modes i ms d) k ≡ K.find d k
  unfolding drop_modes
  drop_modes-kept i [] d n = refl
  drop_modes-kept i ((g, m) ∷ ms) d n =
      drop_modes-kept i ms (K.remove d (mode_string i g)).1 n
      ∙ remove_kept mode_separator (mode_string i g) d (mode_holds i g) n

  write_modes-kept :
      (i : Ident) (ms : ModeMap) (d : K.Db)
      → contains mode_separator k ≡ false
      → K.find (write_modes i ms d) k ≡ K.find d k
  unfolding write_modes
  write_modes-kept i [] d n = refl
  write_modes-kept i ((g, m) ∷ ms) d n =
      write_modes-kept i ms (K.set d (mode_string i g) (Mode.string m)).1 n
      ∙ set_kept mode_separator (mode_string i g) (Mode.string m) d (mode_holds i g) n

  untouched :
      (i : Ident) (js : List Ident) → contains link_separator k ≡ false → touched i js k ≡ false
  unfolding touched
  untouched i [] n = refl
  untouched i (j ∷ js) n = ground (
    arith,
    n,
    link_holds i j,
    link_holds j i,
    differs link_separator (link_record i j) k,
    differs link_separator (link_record j i) k,
    untouched i js n,
  )

  remove_attributes-Holds :
      (i : Ident) (ks : List Bytes) (found : Option Bytes)
      → contains attribute_separator k ≡ false
      → Keeps (Holds k found) (remove_attributes i ks)
  unfolding remove_attributes
  remove_attributes-Holds i [] found n = Keeps-pure tt
  remove_attributes-Holds i (g ∷ ks) found n =
      Keeps-bind _ _
        (record {
          after = λ d e.
              let w = attribute_string i g in
              let r = K.remove d w in
              rw
                (
                  unless_fails-state r.0 _ r.1,
                  remove_kept attribute_separator w d (attribute_holds i g) n,
                )
                e;
        })
        (λ _. remove_attributes-Holds i ks found n)

  set_attributes-Holds :
      (message : Bytes) (i : Ident) (m : List (Bytes × Bytes)) (found : Option Bytes)
      → contains attribute_separator k ≡ false
      → Keeps (Holds k found) (set_attributes message i m)
  unfolding set_attributes
  set_attributes-Holds message i [] found n = Keeps-pure tt
  set_attributes-Holds message i ((g, v) ∷ m) found n =
      Keeps-bind _ _
        (record {
          after = λ d e.
              let w = attribute_string i g in
              let r = K.set d w v in
              rw
                (
                  unless_fails-state r.0 _ r.1,
                  set_kept attribute_separator w v d (attribute_holds i g) n,
                )
                e;
        })
        (λ _. set_attributes-Holds message i m found n)

module _ ⦃B : Boost⦄ ⦃K : Kyoto⦄ (k : Bytes) where
  container-kept :
      (message : Bytes) (i : Ident) (c : Container) (found : Option Bytes)
      → contains attribute_separator k ≡ false
      → Keeps (Holds k found) (Container.commit message i c)
  unfolding Container.commit
  container-kept message i c found n =
      Keeps-bind (remove_attributes i c.delete) _ (remove_attributes-Holds k i c.delete found n)
        (λ _.
          Keeps-bind (set_attributes message i c.attrs) _
            (set_attributes-Holds k message i c.attrs found n) (λ _. Keeps-pure _))

module _ ⦃B : Boost⦄ ⦃K : Kyoto⦄ where
  -- The object exists after a commit that returns.
  pub written-exists :
      (message : Bytes) (i : Ident) (m : Modes) (a b : Association) (c : Container)
      (rs ps : List Ident) (d : K.Db)
      → IsReliable K
      → Prepared i m a c rs ps
      → (Association.commit i a (moded i m d)).0 ≡ ok b
      → Index.exists i (written message i m a c d) ≡ true
  unfolding Index.exists Index.commit commit_modes is_separator
  written-exists message i m a b c rs ps d r p done =
      let k = path_string i in
      let free : (s : ℕ)
          → is_separator s ≡ true
          → (index_separator == s) ≡ false
          → contains s k ≡ false =
        λ s. path_free i s p.clean in
      let noted : K.find (indexed i d) k ≡ some [] =
        ground (arith, r.set_succeeds d k [], K.find-set d k [] k, list_eqb_iff k k) in
      let no_mode = free mode_separator refl refl in
      let no_attribute = free attribute_separator refl refl in
      let moded_there =
        write_modes-kept k i m.add_modes (drop_modes i m.remove_modes (indexed i d)) no_mode
        ∙ (drop_modes-kept k i m.remove_modes (indexed i d) no_mode ∙ noted) in
      let linked_there : K.find (linked i m a d) k ≡ some [] = ground (
        arith,
        find-commit i a b rs ps (moded i m d) k p.clean p.removed_clean p.added_clean p.removes
            p.adds done,
        untouched k i rs (free link_separator refl refl),
        untouched k i ps (free link_separator refl refl),
        moded_there,
      ) in
      let kept =
        (container-kept k message i c (some []) no_attribute).after (linked i m a d) linked_there in
      ap is_some kept
