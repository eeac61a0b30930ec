-- ===== src/Association/Returns.antt =====
-- When a commit of the links returns: every link to remove has both its records in the database.
use libinv.Prelude.{
  ◌≡◌, refl, sym, ap, true, false, ◌||◌, List, [], ◌∷◌, none, is_some, contains, list_eqb,
  list_eqb_iff, list_ord, nat_ord, if◌then◌else◌, arith, inl, inr, map, Option-cases, Bytes,
}
use libinv.Exec.{ok}
use libinv.Extern.Boost.{Boost}
use libinv.Extern.Kyoto.{Kyoto, IsReliable}
use libinv.Key.{key_eqb}
use libinv.Index.{Ident, path}
use libinv.Index.Identity.{IsClean}
use libinv.Association.{
  Association, link_key, remove_link, set_link, remove_links, set_links, commit, on_commit,
}
use libinv.Association.Links.{link_record, link_record-injective}
use libinv.Association.Commit.{AllClean, remove_link-eq, remove_link-find, set_link-eq}

-- The objects are different from i and from each other.
abbrev pub Apart : Ident → List Ident → Type 0
Apart i [] = Unit
Apart i (j ∷ js) =
    (key_eqb (path j) (path i) ≡ false) × (contains (path j) (map path js) ≡ false) × Apart i js

module _ ⦃B : Boost⦄ ⦃K : Kyoto⦄ where
  -- The database has both records of the links from i to each of the objects.
  abbrev pub Linked : K.Db → Ident → List Ident → Type 0
  Linked d i [] = Unit
  Linked d i (j ∷ js) =
      (is_some (K.find d (link_record i j)) ≡ true)
      × (is_some (K.find d (link_record j i)) ≡ true)
      × Linked d i js

  same_ends :
      (i j k l : Ident)
      → IsClean i
      → IsClean j
      → IsClean k
      → IsClean l
      → list_eqb (link_record i j) (link_record k l) ≡ true
      → (key_eqb (path i) (path k) ≡ true) × (key_eqb (path j) (path l) ≡ true)
  same_ends i j k l hi hj hk hl e =
      let q =
        link_record-injective i j k l hi hj hk hl
          ((list_eqb_iff (link_record i j) (link_record k l)).0 e) in
      (
        (list_eqb_iff (path i) (path k)).1 (ap path q.0),
        (list_eqb_iff (path j) (path l)).1 (ap path q.1),
      )

  -- A removal that is possible succeeds.
  removed :
      (d : K.Db) (s : Bytes) → IsReliable K → is_some (K.find d s) ≡ true → (K.remove d s).0 ≡ true
  removed d s r h = elim (Option-cases (K.find d s)) [
    | inl e ↦ ground arith
    | inr (v, e) ↦ r.remove_succeeds d s v e
  ]

  -- The records of a link do not go with those of another link.
  other_records :
      (d d' : K.Db) (i j k : Ident)
      → IsClean i
      → IsClean j
      → IsClean k
      → ((s : Bytes)
          → K.find d' s ≡ (
              if list_eqb (link_record i j) s || list_eqb (link_record j i) s
              then none
              else K.find d s))
      → key_eqb (path j) (path i) ≡ false
      → key_eqb (path k) (path i) ≡ false
      → key_eqb (path k) (path j) ≡ false
      → (K.find d' (link_record i k) ≡ K.find d (link_record i k))
        × (K.find d' (link_record k i) ≡ K.find d (link_record k i))
  other_records d d' i j k hi hj hk f ji ki kj =
      let flip : (x y : Ident)
          → key_eqb (path x) (path y) ≡ true
          → key_eqb (path y) (path x) ≡ true =
        λ x y e. (list_eqb_iff (path y) (path x)).1 (sym ((list_eqb_iff (path x) (path y)).0 e)) in
      (
        ground (
          arith,
          f (link_record i k),
          same_ends i j i k hi hj hi hk,
          same_ends j i i k hj hi hi hk,
          flip j k,
        ),
        ground (
          arith,
          f (link_record k i),
          same_ends i j k i hi hj hk hi,
          same_ends j i k i hj hi hk hi,
          flip j k,
          flip i k,
        ),
      )

  other_links :
      (d d' : K.Db) (i j : Ident) (js : List Ident)
      → IsClean i
      → IsClean j
      → AllClean js
      → ((s : Bytes)
          → K.find d' s ≡ (
              if list_eqb (link_record i j) s || list_eqb (link_record j i) s
              then none
              else K.find d s))
      → key_eqb (path j) (path i) ≡ false
      → contains (path j) (map path js) ≡ false
      → Apart i js
      → Linked d i js
      → Linked d' i js
  unfolding contains
  other_links d d' i j [] hi hj hs f ji c p l = tt
  other_links d d' i j (k ∷ js) hi hj hs f ji c p l =
      let same = other_records d d' i j k hi hj hs.0 f ji p.0 (ground arith) in
      (
        ground (arith, same.0),
        ground (arith, same.1),
        other_links d d' i j js hi hj hs.1 f ji (ground arith) p.2 l.2,
      )

  remove_link-returns :
      (d : K.Db) (i j : Ident)
      → IsReliable K
      → IsClean i
      → IsClean j
      → key_eqb (path j) (path i) ≡ false
      → is_some (K.find d (link_record i j)) ≡ true
      → is_some (K.find d (link_record j i)) ≡ true
      → (remove_link (link_key i (path j)) d).0 ≡ ok tt
  remove_link-returns d i j r hi hj ji x y =
      let first = removed d (link_record i j) r x in
      let second = removed (K.remove d (link_record i j)).1 (link_record j i) r in
      ground (
        arith,
        remove_link-eq i j d hi hj,
        first,
        second,
        K.find-remove d (link_record i j) (link_record j i),
        same_ends i j j i hi hj hj hi,
      )

  remove_links-returns :
      (d : K.Db) (i : Ident) (js : List Ident)
      → IsReliable K
      → IsClean i
      → AllClean js
      → Apart i js
      → Linked d i js
      → (remove_links i (map path js) d).0 ≡ ok tt
  unfolding remove_links
  remove_links-returns d i [] r hi hs p l = refl
  remove_links-returns d i (j ∷ js) r hi hs p l =
      let e = remove_link (link_key i (path j)) d in
      let back = remove_link-returns d i j r hi hs.0 p.0 l.0 l.1 in
      let rest =
        other_links d e.1 i j js hi hs.0 hs.1 (λ s. remove_link-find i j d s hi hs.0 back) p.0 p.1
          p.2 l.2 in
      ground (arith, back, remove_links-returns e.1 i js r hi hs.1 p.2 rest)

  set_links-returns :
      (d : K.Db) (i : Ident) (js : List Ident)
      → IsReliable K
      → IsClean i
      → AllClean js
      → (set_links i (map path js) d).0 ≡ ok tt
  unfolding set_links
  set_links-returns d i [] r hi hs = refl
  set_links-returns d i (j ∷ js) r hi hs =
      let e = set_link (link_key i (path j)) d in
      let x = K.set d (link_record i j) [] in
      ground (
        arith,
        set_link-eq i j d hi hs.0,
        r.set_succeeds d (link_record i j) [],
        r.set_succeeds x.1 (link_record j i) [],
        set_links-returns e.1 i js r hi hs.1,
      )

  -- On a database that meets no error, the commit returns, with nothing more to commit, where the
  -- links queued for removal lead to different other objects and both records of each are there.
  -- The object and what is queued are clean.
  pub commit-returns :
      (i : Ident) (a : Association) (rs ps : List Ident) (d : K.Db)
      → IsReliable K
      → IsClean i
      → AllClean rs
      → AllClean ps
      → a.remove ≡ map path rs
      → a.add ≡ map path ps
      → Apart i rs
      → Linked d i rs
      → (commit i a d).0 ≡ ok (on_commit a)
  unfolding commit
  commit-returns i a rs ps d r hi hr hp er ep p l =
      let x = remove_links i (map path rs) d in
      rw (er, ep)
        (ground
          (arith, remove_links-returns d i rs r hi hr p l, set_links-returns x.1 i ps r hi hp))
