-- ===== src/Association/RoundTrip.antt =====
-- A commit and the load that follows it, from either end of a link; and a commit that fails.
use libinv.Prelude.{
  ◌≡◌, refl, ap, ◌∙◌, true, false, List, [], ◌∷◌, Bytes, none, is_some, contains, list_ord, nat_ord,
  if◌then◌else◌, arith, inl, inr, map, list_eqb, list_eqb_iff, Bool-cases, insert, erase,
}
use libinv.Exec.{ok, err, lift}
use libinv.Exec.Keeps.{Keeps, Keeps-pure, Keeps-lift, Keeps-bind, unless_fails-state}
use libinv.Extern.Boost.{Boost}
use libinv.Extern.Kyoto.{Kyoto}
use libinv.Key.{Key, key_eqb, index_separator, link_separator, inverted, string}
use libinv.Index.{Ident, path, path_string}
use libinv.Index.Identity.{IsClean}
use libinv.Stored.{Stored, pair_record, WellKeyed}
use libinv.Stored.Writes.{set-WellKeyed, remove-WellKeyed}
use libinv.Association.{
  Association, disassociate, disassociate_both, get, commit, fresh, link_key, link_string,
  remove_key, remove_link, remove_links, set_key, set_link, set_links,
}
use libinv.Association.Links.{link_record, link_record-injective, inverted-link_key}
use libinv.Association.Scan.{link_record-eq, link_eqb}
use libinv.Association.Commit.{
  AllClean, touched, find-commit, couldnt_remove, couldnt_set, remove_link-eq,
}
use libinv.Association.Get.{get-contains}

module _ ⦃B : Boost⦄ where
  link_Stored : (i j : Ident) → IsClean i → IsClean j → Stored (link_record i j)
  link_Stored i j hi hj = pair_record link_separator i j refl hi hj (link_record-eq i j)

  -- A record from i is touched exactly where its far end is in the list.
  touched-link_record :
      (i j : Ident) (ps : List Ident)
      → IsClean i
      → IsClean j
      → AllClean ps
      → touched i ps (link_record i j) ≡ contains (path j) (map path ps)
  unfolding touched contains
  touched-link_record i j [] hi hj hp = refl
  touched-link_record i j (p ∷ ps) hi hj hp =
      let backward : list_eqb (link_record p i) (link_record i j) ≡ true
          → key_eqb (path p) (path j) ≡ true =
        λ e.
          let q =
            link_record-injective p i i j hp.0 hi hi hj
              ((list_eqb_iff (link_record p i) (link_record i j)).0 e) in
          (list_eqb_iff (path p) (path j)).1 (ap path (q.0 ∙ q.1)) in
      ground (arith, link_eqb i p j hi hp.0 hj, backward, touched-link_record i j ps hi hj hp.1)

module _ ⦃B : Boost⦄ ⦃K : Kyoto⦄ where
  remove_key-Keeps : (k : Bytes) → Keeps WellKeyed (remove_key k)
  unfolding remove_key
  remove_key-Keeps k = record {
    after = λ d w.
        rw (unless_fails-state (K.remove d k).0 couldnt_remove (K.remove d k).1)
          (remove-WellKeyed d k w);
  }

  set_key-Keeps : (k : Bytes) → Stored k → Keeps WellKeyed (set_key k)
  unfolding set_key
  set_key-Keeps k s = record {
    after = λ d w.
        rw (unless_fails-state (K.set d k []).0 couldnt_set (K.set d k []).1)
          (set-WellKeyed d k [] s w);
  }

  remove_links-Keeps : (i : Ident) (ps : List Key) → Keeps WellKeyed (remove_links i ps)
  unfolding remove_links remove_link
  remove_links-Keeps i [] = Keeps-pure tt
  remove_links-Keeps i (p ∷ ps) =
      Keeps-bind (remove_link (link_key i p)) (λ _. remove_links i ps)
        (Keeps-bind (remove_key (link_string (link_key i p))) _
          (remove_key-Keeps (link_string (link_key i p)))
          (λ _.
            Keeps-bind (lift (inverted (link_key i p))) _ (Keeps-lift _)
              (λ back. remove_key-Keeps (link_string back))))
        (λ _. remove_links-Keeps i ps)

  set_link-Keeps :
      (i j : Ident) → IsClean i → IsClean j → Keeps WellKeyed (set_link (link_key i (path j)))
  unfolding set_link
  set_link-Keeps i j hi hj =
      Keeps-bind (set_key (link_string (link_key i (path j)))) _
        (set_key-Keeps _ (unfold link_record in link_Stored i j hi hj))
        (λ _. rw (inverted-link_key i j hi hj) (
          set_key-Keeps (link_string (link_key j (path i)))
            (unfold link_record in link_Stored j i hj hi)))

  set_links-Keeps :
      (i : Ident) (ps : List Ident)
      → IsClean i
      → AllClean ps
      → Keeps WellKeyed (set_links i (map path ps))
  unfolding set_links
  set_links-Keeps i [] hi hp = Keeps-pure tt
  set_links-Keeps i (p ∷ ps) hi hp =
      Keeps-bind (set_link (link_key i (path p))) _ (set_link-Keeps i p hi hp.0)
        (λ _. set_links-Keeps i ps hi hp.1)

  -- A commit of additions between clean identities leaves a well keyed database well keyed, also
  -- where it throws on the way.
  pub commit-WellKeyed :
      (i : Ident) (a : Association) (ps : List Ident) (d : K.Db)
      → IsClean i
      → AllClean ps
      → a.add ≡ map path ps
      → WellKeyed d
      → WellKeyed (commit i a d).1
  unfolding commit
  commit-WellKeyed i a ps d hi hp e =
      (Keeps-bind (remove_links i a.remove) _ (remove_links-Keeps i a.remove) (λ _.
          Keeps-bind (set_links i a.add) _ (rw e (set_links-Keeps i ps hi hp))
            (λ _. Keeps-pure _))).after
        d

  -- After a commit that returns, a fresh object of the same identity loads, of the clean
  -- identities, exactly those queued for addition and those that were in the database and not
  -- queued for removal. The object and what is queued are clean, and the keys of the database are
  -- of the known forms.
  pub get-commit :
      (i j : Ident) (a b : Association) (rs ps : List Ident) (d : K.Db)
      → IsClean i
      → IsClean j
      → AllClean rs
      → AllClean ps
      → a.remove ≡ map path rs
      → a.add ≡ map path ps
      → (commit i a d).0 ≡ ok b
      → WellKeyed d
      → contains (path j) (get i (commit i a d).1 fresh).assoc ≡ (
          if contains (path j) a.add
          then true
          else if contains (path j) a.remove
          then false
          else is_some (K.find d (link_record i j)))
  unfolding contains
  get-commit i j a b rs ps d hi hj hr hp er ep h w = ground (
    arith,
    get-contains i j (commit i a d).1 fresh hi hj (commit-WellKeyed i a ps d hi hp ep w),
    (find-commit i a b rs ps d (link_record i j) hi hr hp er ep h).0,
    touched-link_record i j ps hi hj hp,
    touched-link_record i j rs hi hj hr,
    er,
    ep,
  )

  -- The record at the far end is touched too.
  touched_far :
      (i j : Ident) (ps : List Ident)
      → IsClean i
      → IsClean j
      → AllClean ps
      → contains (path j) (map path ps) ≡ true
      → touched i ps (link_record j i) ≡ true
  unfolding touched contains
  touched_far i j [] hi hj hp c = c
  touched_far i j (p ∷ ps) hi hj hp c = elim (Bool-cases (key_eqb (path p) (path j))) [
    | inl e ↦ ground (
      arith,
      (list_eqb_iff (link_record p i) (link_record j i)).1 (
          unfold link_record path_string in
          ap (λ k. link_string (string index_separator k ∷ string index_separator (path i) ∷ []))
            ((list_eqb_iff (path p) (path j)).0 e)),
    )
    | inr e ↦ ground (arith, touched_far i j ps hi hj hp.1)
  ]

  -- After a commit that returns, an object that was queued for addition loads the link back from
  -- its own end. The objects are clean, and the keys of the database are of the known forms.
  pub get-commit_far :
      (i j : Ident) (a b : Association) (rs ps : List Ident) (d : K.Db)
      → IsClean i
      → IsClean j
      → AllClean rs
      → AllClean ps
      → a.remove ≡ map path rs
      → a.add ≡ map path ps
      → (commit i a d).0 ≡ ok b
      → WellKeyed d
      → contains (path j) a.add ≡ true
      → contains (path i) (get j (commit i a d).1 fresh).assoc ≡ true
  get-commit_far i j a b rs ps d hi hj hr hp er ep h w c = ground (
    arith,
    get-contains j i (commit i a d).1 fresh hj hi (commit-WellKeyed i a ps d hi hp ep w),
    (find-commit i a b rs ps d (link_record j i) hi hr hp er ep h).0,
    touched_far i j ps hi hj hp (rw (← ep) c),
  )

  missing_link_throws :
      (i j : Ident) (ps : List Key) (d : K.Db)
      → IsClean i
      → IsClean j
      → K.find d (link_record i j) ≡ none
      → remove_links i (path j ∷ ps) d ≡ (err couldnt_remove, d)
  unfolding remove_links
  missing_link_throws i j ps d hi hj e =
      let gone = K.remove_missing d (link_record i j) e in
      ground (arith, remove_link-eq i j d hi hj, gone, K.remove_failed d (link_record i j) gone)

  commit_throws :
      (j : Ident) (c : Association) (ps : List Key) (d s : K.Db)
      → c.remove ≡ ps
      → remove_links j ps d ≡ (err couldnt_remove, s)
      → commit j c d ≡ (err couldnt_remove, s)
  unfolding commit
  commit_throws j c ps d s e h = rw (e, h)

  -- Two clean objects with nothing to commit are disassociated from each other and committed one
  -- after the other: where the first commit returns, the second throws and changes nothing.
  pub second_disassociation_throws :
      (i j : Ident) (a c b : Association) (d : K.Db)
      → IsClean i
      → IsClean j
      → a.add ≡ []
      → a.remove ≡ []
      → c.add ≡ []
      → c.remove ≡ []
      → (commit i (disassociate_both (i, a) (j, c)).0 d).0 ≡ ok b
      → commit j
          (disassociate_both (i, a) (j, c)).1
          (commit i (disassociate_both (i, a) (j, c)).0 d).1
        ≡ (err couldnt_remove, (commit i (disassociate_both (i, a) (j, c)).0 d).1)
  unfolding disassociate_both disassociate insert erase
  second_disassociation_throws i j a c b d hi hj ea ra ec rc h =
      let a' : Association = disassociate (path j) a in
      let c' : Association = disassociate (path i) c in
      let found =
        find-commit i a' b (j ∷ []) [] d (link_record j i) hi (hj, tt) tt (rw ra) (rw ea) h in
      let far =
        touched_far i j (j ∷ []) hi hj (hj, tt)
          (unfold contains in ground (arith, (list_eqb_iff (path j) (path j)).1 refl)) in
      let gone : K.find (commit i a' d).1 (link_record j i) ≡ none =
        unfold touched in ground (arith, found.0, far) in
      let queued : c'.remove ≡ path i ∷ [] = rw rc in
      commit_throws j c' (path i ∷ []) (commit i a' d).1 (commit i a' d).1 queued
        (missing_link_throws j i [] (commit i a' d).1 hj hi gone)
