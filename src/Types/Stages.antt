-- ===== src/Types/Stages.antt =====
-- The commits of index, modes, links and attributes one after the other, on one database: what
-- each writes is there at the end, and they do not disturb one another.
use libinv.Prelude.{
  ℕ, ◌<◌, ◌≡◌, refl, ◌∙◌, true, false, List, [], ◌∷◌, Bytes, none, some, is_some, contains, lookup,
  nat_ord, list_ord, ◌==◌, map, Strictly, if◌then◌else◌, arith,
}
use libinv.Exec.{ok}
use libinv.Exec.Keeps.{unless_fails-state}
use libinv.Extern.Boost.{Boost}
use libinv.Extern.Kyoto.{Kyoto, IsReliable}
use libinv.Key.{link_separator, attribute_separator, mode_separator}
use libinv.Key.Words.{contains_middle}
use libinv.Index.{Ident, path, path_string}
use libinv.Index
use libinv.Index.Identity.{IsClean, is_separator}
use libinv.Stored.{WellKeyed, named_record, index_record}
use libinv.Stored.Writes.{set-WellKeyed, remove-WellKeyed}
use libinv.Mode
use libinv.Modes.{ModeMap, Modes, mode_string, drop_modes, write_modes, commit_modes}
use libinv.Modes.Commit.{find-write_modes, find-drop_modes}
use libinv.Modes.Repr.{NineBits}
use libinv.Modes.Scan.{mode_string-eq}
use libinv.Association.{Association}
use libinv.Association
use libinv.Association.Links.{link_record}
use libinv.Association.Scan.{link_record-eq}
use libinv.Association.Commit.{AllClean}
use libinv.Association.Get.{get-contains}
use libinv.Association.RoundTrip as AssociationRoundTrip
use libinv.Container.{Container, attribute_string}
use libinv.Container
use libinv.Container.Tokens.{attribute_string-eq}
use libinv.Container.Commit.{find-commit_attribute}
use libinv.Container.RoundTrip.{PlainNames, commit-WellKeyed_container}
use libinv.Object.Frames.{
  AllPlain, PlainHandles, index-Holds, commit_modes-find, association-Holds, container-Holds,
}

-- What an object has to commit: keys that are clean, names and handles without separators, and maps
-- that are sorted.
pub record Prepared ⦃B : Boost⦄ (i : Ident) (m : Modes) (a : Association) (c : Container)
    (rs ps : List Ident) : Type 0 where
  pub clean : IsClean i
  pub removed_clean : AllClean rs
  pub added_clean : AllClean ps
  pub removes : a.remove ≡ map path rs
  pub adds : a.add ≡ map path ps
  pub names_plain : PlainNames c.attrs
  pub deleted_plain : AllPlain c.delete
  pub names_sorted : Strictly c.attrs
  pub added_handles : PlainHandles m.add_modes
  pub removed_handles : PlainHandles m.remove_modes
  pub handles_sorted : Strictly m.add_modes
  pub nine_bits : NineBits m.add_modes

pub NineBits-lookup :
    (h : Bytes) (v : ℕ) (ms : ModeMap) → NineBits ms → lookup h ms ≡ some v → v < 512
unfolding lookup
NineBits-lookup h v [] b e = cc
NineBits-lookup h v ((k, w) ∷ ms) b e = ground (arith, NineBits-lookup h v ms b.1)

module _ ⦃B : Boost⦄ where
  pub link_holds : (i j : Ident) → contains link_separator (link_record i j) ≡ true
  link_holds i j =
      rw link_record-eq (contains_middle link_separator (path_string i) (path_string j))

  pub attribute_holds :
      (i : Ident) (h : Bytes) → contains attribute_separator (attribute_string i h) ≡ true
  attribute_holds i h =
      rw attribute_string-eq (contains_middle attribute_separator (path_string i) h)

  pub mode_holds : (i : Ident) (h : Bytes) → contains mode_separator (mode_string i h) ≡ true
  mode_holds i h = rw mode_string-eq (contains_middle mode_separator (path_string i) h)

module _ ⦃B : Boost⦄ ⦃K : Kyoto⦄ where
  drop_modes-WellKeyed :
      (i : Ident) (ms : ModeMap) (d : K.Db) → WellKeyed d → WellKeyed (drop_modes i ms d)
  unfolding drop_modes
  drop_modes-WellKeyed i [] d w = w
  drop_modes-WellKeyed i ((h, m) ∷ ms) d w =
      drop_modes-WellKeyed i ms (K.remove d (mode_string i h)).1
        (remove-WellKeyed d (mode_string i h) w)

  write_modes-WellKeyed :
      (i : Ident) (ms : ModeMap) (d : K.Db)
      → IsClean i
      → PlainHandles ms
      → WellKeyed d
      → WellKeyed (write_modes i ms d)
  unfolding write_modes
  write_modes-WellKeyed i [] d hi p w = w
  write_modes-WellKeyed i ((h, m) ∷ ms) d hi p w =
      write_modes-WellKeyed i ms (K.set d (mode_string i h) (Mode.string m)).1 hi p.1 (
        set-WellKeyed d (mode_string i h) (Mode.string m)
          (named_record mode_separator i h refl hi p.0 (mode_string-eq i h)) w)

  -- The four databases of a commit.
  abbrev pub indexed : Ident → K.Db → K.Db
  indexed i d = (Index.commit i d).1

  abbrev pub moded : Ident → Modes → K.Db → K.Db
  moded i m d = (commit_modes i m (indexed i d)).1

  abbrev pub linked : Ident → Modes → Association → K.Db → K.Db
  linked i m a d = (Association.commit i a (moded i m d)).1

  abbrev pub written : Bytes → Ident → Modes → Association → Container → K.Db → K.Db
  written message i m a c d = (Container.commit message i c (linked i m a d)).1

module _ ⦃B : Boost⦄ ⦃K : Kyoto⦄ (message : Bytes) (i : Ident) (m : Modes) (a : Association)
    (c : Container) (rs ps : List Ident) (p : Prepared i m a c rs ps) (d : K.Db)
    (w : WellKeyed d) where
  moded-WellKeyed : WellKeyed (moded i m d)
  unfolding commit_modes Index.commit
  moded-WellKeyed = write_modes-WellKeyed i m.add_modes _ p.clean p.added_handles (
      drop_modes-WellKeyed i m.remove_modes _ (
        rw (unless_fails-state (K.set d (path_string i) []).0 _ (K.set d (path_string i) []).1)
          (set-WellKeyed d (path_string i) [] (index_record i p.clean refl) w)))

  linked-WellKeyed : WellKeyed (linked i m a d)
  linked-WellKeyed =
      AssociationRoundTrip.commit-WellKeyed i a ps (moded i m d) p.clean p.added_clean p.adds
        moded-WellKeyed

  pub written-WellKeyed : WellKeyed (written message i m a c d)
  written-WellKeyed =
      commit-WellKeyed_container message i c (linked i m a d) p.clean p.names_plain linked-WellKeyed

  -- The commits of index and modes leave the record of a key with another separator.
  moded-find :
      (x : ℕ) (k : Bytes)
      → is_separator x ≡ true
      → (b':' == x) ≡ false
      → (mode_separator == x) ≡ false
      → contains x k ≡ true
      → K.find (moded i m d) k ≡ K.find d k
  moded-find x k s n e h =
      commit_modes-find x s n k (K.find d k) h i m (indexed i d) p.clean p.removed_handles
        p.added_handles e
      ∙ (index-Holds x s n k (K.find d k) h i p.clean).after d refl

  linked-find :
      (x : ℕ) (k : Bytes)
      → is_separator x ≡ true
      → (b':' == x) ≡ false
      → (link_separator == x) ≡ false
      → contains x k ≡ true
      → K.find (linked i m a d) k ≡ K.find (moded i m d) k
  linked-find x k s n e h =
      (association-Holds x s n k (K.find (moded i m d) k) h e i a rs ps p.clean p.removed_clean
          p.added_clean p.removes p.adds).after
        (moded i m d) refl

  written-find :
      (x : ℕ) (k : Bytes)
      → is_separator x ≡ true
      → (b':' == x) ≡ false
      → (attribute_separator == x) ≡ false
      → contains x k ≡ true
      → K.find (written message i m a c d) k ≡ K.find (linked i m a d) k
  written-find x k s n e h =
      (container-Holds x s n k (K.find (linked i m a d) k) h e message i c p.clean p.deleted_plain
          p.names_plain).after
        (linked i m a d) refl

  -- The links that a fresh mixin loads at the end.
  pub written-links :
      (j : Ident) (b : Association)
      → IsClean j
      → (Association.commit i a (moded i m d)).0 ≡ ok b
      → contains (path j) (Association.get i (written message i m a c d) Association.fresh).assoc
        ≡ (if contains (path j) a.add
            then true
            else if contains (path j) a.remove
            then false
            else is_some (K.find d (link_record i j)))
  unfolding is_separator contains
  written-links j b hj done =
      let k = link_record i j in
      let h = link_holds i j in
      ground (
        arith,
        get-contains i j (written message i m a c d) Association.fresh p.clean hj written-WellKeyed,
        written-find link_separator k refl refl refl h,
        get-contains i j (linked i m a d) Association.fresh p.clean hj linked-WellKeyed,
        AssociationRoundTrip.get-commit i j a b rs ps (moded i m d) p.clean hj p.removed_clean
            p.added_clean p.removes p.adds done moded-WellKeyed,
        moded-find link_separator k refl refl refl h,
      )

  -- The record of an attribute at the end.
  pub written-attribute :
      (h : Bytes) (b : Container)
      → (Container.commit message i c (linked i m a d)).0 ≡ ok b
      → K.find (written message i m a c d) (attribute_string i h) ≡ elim (lookup h c.attrs) [
        | some v ↦ some v
        | none ↦ if contains h c.delete then none else K.find d (attribute_string i h)
      ]
  unfolding is_separator
  written-attribute h b done =
      let k = attribute_string i h in
      let e = attribute_holds i h in
      ground (
        arith,
        find-commit_attribute message i h c b (linked i m a d) p.names_sorted done,
        linked-find attribute_separator k refl refl refl e,
        moded-find attribute_separator k refl refl refl e,
      )

  -- The mode that a fresh object reads from the record of a handle at the end.
  pub written-mode :
      (h : Bytes)
      → IsReliable K
      → K.find (written message i m a c d) (mode_string i h) ≡ elim (lookup h m.add_modes) [
        | some v ↦ some (Mode.string v)
        | none ↦ if is_some (lookup h m.remove_modes) then none else K.find d (mode_string i h)
      ]
  unfolding is_separator commit_modes
  written-mode h r =
      let k = mode_string i h in
      let e = mode_holds i h in
      let dropped = drop_modes i m.remove_modes (indexed i d) in
      ground (
        arith,
        written-find mode_separator k refl refl refl e,
        linked-find mode_separator k refl refl refl e,
        find-write_modes i h m.add_modes dropped r p.handles_sorted,
        find-drop_modes i h m.remove_modes (indexed i d) r,
        (index-Holds mode_separator refl refl k (K.find d k) e i p.clean).after d refl,
      )
