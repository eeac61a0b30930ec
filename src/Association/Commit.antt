-- ===== src/Association/Commit.antt =====
-- What a commit of the links does to the database.
use libinv.Prelude.{
  ◌≡◌, refl, Bool, false, ◌||◌, List, [], ◌∷◌, Bytes, none, some, list_eqb, list_ord, nat_ord,
  if◌then◌else◌, arith, codes, map,
}
use libinv.Exception.{Exception, runtime_error}
use libinv.Exec.{ok, err}
use libinv.Extern.Boost.{Boost}
use libinv.Extern.Kyoto.{Kyoto}
use libinv.Index.{Ident, path}
use libinv.Index.Identity.{IsClean}
use libinv.Association.{
  Association, link_key, remove_key, set_key, remove_link, set_link, remove_links, set_links,
  commit, on_commit,
}
use libinv.Association.Links.{link_record, inverted-link_key}

abbrev pub AllClean : List Ident → Type 0
AllClean [] = Unit
AllClean (j ∷ js) = IsClean j × AllClean js

abbrev pub couldnt_remove : Exception
couldnt_remove = runtime_error (codes "Couldn't remove keys")

abbrev pub couldnt_set : Exception
couldnt_set = runtime_error (codes "Couldn't set kv")

module _ ⦃B : Boost⦄ where
  -- s is the text of a record of a link between i and one of js, in either direction.
  unfoldable pub touched : Ident → List Ident → Bytes → Bool
  touched i [] s = false
  touched i (j ∷ js) s =
      list_eqb (link_record i j) s || (list_eqb (link_record j i) s || touched i js s)

module _ ⦃B : Boost⦄ ⦃K : Kyoto⦄ where
  pub remove_link-eq :
      (i j : Ident) (d : K.Db)
      → IsClean i
      → IsClean j
      → remove_link (link_key i (path j)) d ≡ (
          let x = K.remove d (link_record i j) in
          let y = K.remove x.1 (link_record j i) in
          if x.0
          then (if y.0 then (ok tt, y.1) else (err couldnt_remove, y.1))
          else (err couldnt_remove, x.1))
  unfolding remove_link remove_key link_record
  remove_link-eq i j d hi hj = ground (arith, inverted-link_key i j hi hj)

  pub remove_link-find :
      (i j : Ident) (d : K.Db) (s : Bytes)
      → IsClean i
      → IsClean j
      → (remove_link (link_key i (path j)) d).0 ≡ ok tt
      → K.find (remove_link (link_key i (path j)) d).1 s ≡ (
          if list_eqb (link_record i j) s || list_eqb (link_record j i) s then none else K.find d s)
  remove_link-find i j d s hi hj = rw (remove_link-eq i j d hi hj) (λ h. ground (
    arith,
    K.find-remove d (link_record i j) s,
    K.find-remove (K.remove d (link_record i j)).1 (link_record j i) s,
  ))

  pub set_link-eq :
      (i j : Ident) (d : K.Db)
      → IsClean i
      → IsClean j
      → set_link (link_key i (path j)) d ≡ (
          let x = K.set d (link_record i j) [] in
          let y = K.set x.1 (link_record j i) [] in
          if x.0
          then (if y.0 then (ok tt, y.1) else (err couldnt_set, y.1))
          else (err couldnt_set, x.1))
  unfolding set_link set_key link_record
  set_link-eq i j d hi hj = ground (arith, inverted-link_key i j hi hj)

  set_link-find :
      (i j : Ident) (d : K.Db) (s : Bytes)
      → IsClean i
      → IsClean j
      → (set_link (link_key i (path j)) d).0 ≡ ok tt
      → K.find (set_link (link_key i (path j)) d).1 s ≡ (
          if list_eqb (link_record i j) s || list_eqb (link_record j i) s
          then some []
          else K.find d s)
  set_link-find i j d s hi hj = rw (set_link-eq i j d hi hj) (λ h. ground (
    arith,
    K.find-set d (link_record i j) [] s,
    K.find-set (K.set d (link_record i j) []).1 (link_record j i) [] s,
  ))

  remove_links-find :
      (i : Ident) (js : List Ident) (d : K.Db) (s : Bytes)
      → IsClean i
      → AllClean js
      → (remove_links i (map path js) d).0 ≡ ok tt
      → K.find (remove_links i (map path js) d).1 s ≡ (if touched i js s then none else K.find d s)
  unfolding remove_links touched
  remove_links-find i [] d s hi hs h = refl
  remove_links-find i (j ∷ js) d s hi hs h =
      let e = remove_link (link_key i (path j)) d in
      ground (arith, remove_link-find i j d s hi hs.0, remove_links-find i js e.1 s hi hs.1)

  set_links-find :
      (i : Ident) (js : List Ident) (d : K.Db) (s : Bytes)
      → IsClean i
      → AllClean js
      → (set_links i (map path js) d).0 ≡ ok tt
      → K.find (set_links i (map path js) d).1 s ≡ (if touched i js s then some [] else K.find d s)
  unfolding set_links touched
  set_links-find i [] d s hi hs h = refl
  set_links-find i (j ∷ js) d s hi hs h =
      let e = set_link (link_key i (path j)) d in
      ground (arith, set_link-find i j d s hi hs.0, set_links-find i js e.1 s hi hs.1)

  -- A commit that returns has removed both records of each link queued for removal, has written
  -- both records of each link queued for addition, an addition prevailing, and has left every
  -- other record alone; the object has no more to commit. The object and what is queued are clean.
  pub find-commit :
      (i : Ident) (a b : Association) (rs ps : List Ident) (d : K.Db) (s : Bytes)
      → IsClean i
      → AllClean rs
      → AllClean ps
      → a.remove ≡ map path rs
      → a.add ≡ map path ps
      → (commit i a d).0 ≡ ok b
      → (K.find (commit i a d).1 s
          ≡ (if touched i ps s then some [] else if touched i rs s then none else K.find d s))
        × (b ≡ on_commit a)
  unfolding commit
  find-commit i a b rs ps d s hi hr hp er ep =
      rw (er, ep)
        (λ h.
          let x = remove_links i (map path rs) d in
          (
            ground (arith, remove_links-find i rs d s hi hr, set_links-find i ps x.1 s hi hp),
            ground arith,
          ))
