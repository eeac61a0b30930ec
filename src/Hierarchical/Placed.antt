-- ===== src/Hierarchical/Placed.antt =====
-- An object that is put under another finds it above itself after the commit.
use libinv.Prelude.{
  ℕ, ◌≡◌, refl, ap, sym, ◌∙◌, true, false, List, [], ◌∷◌, ◌++◌, Bytes, codes, some, contains,
  list_eqb, list_eqb_iff, nat_ord, list_ord, if◌then◌else◌, arith, map, ==_iff,
}
use libinv.Exec.{ok}
use libinv.Extern.Boost.{Boost}
use libinv.Extern.Kyoto.{Kyoto, IsReliable}
use libinv.Key.{Key, up_separator, down_separator, key_eqb, parse, string, up_key}
use libinv.Key.Words.{IsWord, parse-string}
use libinv.Index.{Ident, path, path_string}
use libinv.Index.Identity.{
  IsClean, is_separator, path_string-IsWord, parse-path_string, contains-append, contains_tail,
}
use libinv.Index.Records.{path_string-eqb}
use libinv.Association.Commit.{AllClean}
use libinv.Hierarchical.{
  Hierarchical, up_string, down_string, down_key, commit_up, commit_add, commit_remove,
  commit_dkeys, commit, on_commit, stored_up_id,
}

contains_inside : (c : ℕ) (v w : Bytes) → contains c (v ++ c ∷ w) ≡ true
unfolding contains
contains_inside c [] w = ground (arith, ==_iff c c)
contains_inside c (x ∷ v) w = ground (arith, contains_inside c v w)

IsWord-contains : (c : ℕ) (w : Bytes) → IsWord c w → contains c w ≡ false
IsWord-contains c [] h = absurd h
IsWord-contains c (x ∷ w) h = h

module _ ⦃B : Boost⦄ where
  -- A text without the separator is one token.
  parse_word : (c : ℕ) (w : Bytes) → IsWord c w → parse c w ≡ w ∷ []
  unfolding string
  parse_word c w h = rw (B.join_one w (c ∷ [])) at (parse-string c (w ∷ []) (h, tt))

  up_string-eq :
      (j : Ident)
      → IsClean j
      → up_string (path_string j) ≡ string up_separator (path_string j ∷ codes "up" ∷ [])
  unfolding up_string up_key is_separator
  up_string-eq j hj =
      rw (parse_word up_separator (path_string j) (path_string-IsWord j up_separator hj refl refl))

  parse-up_string :
      (j : Ident)
      → IsClean j
      → parse up_separator (up_string (path_string j)) ≡ path_string j ∷ codes "up" ∷ []
  unfolding is_separator
  parse-up_string j hj = rw (up_string-eq j hj) (
      parse-string up_separator (path_string j ∷ codes "up" ∷ [])
        (path_string-IsWord j up_separator hj refl refl, (unfold contains in refl, tt)))

  up_string-eqb :
      (j k : Ident)
      → IsClean j
      → IsClean k
      → list_eqb (up_string (path_string j)) (up_string (path_string k)) ≡ key_eqb (path j) (path k)
  unfolding is_separator
  up_string-eqb j k hj hk =
      let same = path_string-eqb j k hj hk in
      let there : list_eqb (up_string (path_string j)) (up_string (path_string k)) ≡ true
          → list_eqb (path_string j) (path_string k) ≡ true =
        λ e.
          let q : ◌≡◌ {A = Key} (path_string j ∷ codes "up" ∷ [])
              (path_string k ∷ codes "up" ∷ []) =
            sym (parse-up_string j hj)
            ∙ (ap (parse up_separator)
                  ((list_eqb_iff (up_string (path_string j)) (up_string (path_string k))).0 e)
                ∙ parse-up_string k hk) in
          (list_eqb_iff (path_string j) (path_string k)).1 (ground arith) in
      let back : list_eqb (path_string j) (path_string k) ≡ true
          → list_eqb (up_string (path_string j)) (up_string (path_string k)) ≡ true =
        λ e.
          (list_eqb_iff (up_string (path_string j)) (up_string (path_string k))).1
            (ap up_string ((list_eqb_iff (path_string j) (path_string k)).0 e)) in
      ground (arith, same, there, back)

  up_string-contains :
      (j : Ident) → IsClean j → contains up_separator (up_string (path_string j)) ≡ true
  unfolding string
  up_string-contains j hj =
      rw
        (
          up_string-eq j hj,
          B.join_more (path_string j) (codes "up") [] (up_separator ∷ []),
          B.join_one (codes "up") (up_separator ∷ []),
        )
        (contains_inside up_separator (path_string j) (codes "up"))

  down_string-contains :
      (i j : Ident)
      → IsClean i
      → IsClean j
      → contains up_separator (down_string (down_key (path_string i) (path j))) ≡ false
  unfolding down_string down_key string path_string is_separator
  down_string-contains i j hi hj =
      rw
        (
          B.join_more (path_string i) (path_string j) [] (down_separator ∷ []),
          B.join_one (path_string j) (down_separator ∷ []),
        )
        (contains-append up_separator (path_string i) (down_separator ∷ path_string j)
          (IsWord-contains up_separator (path_string i)
            (path_string-IsWord i up_separator hi refl refl))
          (contains_tail up_separator down_separator (path_string j) refl (
            IsWord-contains up_separator (path_string j)
              (path_string-IsWord j up_separator hj refl refl))))

  down_string-up_string :
      (i j k : Ident)
      → IsClean i
      → IsClean j
      → IsClean k
      → list_eqb (down_string (down_key (path_string i) (path j))) (up_string (path_string k))
        ≡ false
  down_string-up_string i j k hi hj hk =
      let text = down_string (down_key (path_string i) (path j)) in
      ground (
        arith,
        down_string-contains i j hi hj,
        up_string-contains k hk,
        (list_eqb_iff text (up_string (path_string k))).0,
      )

module _ ⦃B : Boost⦄ ⦃K : Kyoto⦄ where
  find-commit_add :
      (i j : Ident) (js : List Ident) (d : K.Db)
      → IsReliable K
      → IsClean i
      → IsClean j
      → AllClean js
      → K.find (commit_add i (map path js) d) (up_string (path_string j)) ≡ (
          if contains (path j) (map path js)
          then some (path_string i)
          else K.find d (up_string (path_string j)))
  unfolding commit_add contains path_string
  find-commit_add i j [] d r hi hj hs = refl
  find-commit_add i j (k ∷ js) d r hi hj hs =
      let x = K.set d (up_string (path_string k)) (path_string i) in
      let y = K.set x.1 (down_string (down_key (path_string i) (path k))) [] in
      ground (
        arith,
        find-commit_add i j js y.1 r hi hj hs.1,
        K.find-set d (up_string (path_string k)) (path_string i) (up_string (path_string j))
            (r.set_succeeds d (up_string (path_string k)) (path_string i)),
        K.find-set x.1 (down_string (down_key (path_string i) (path k))) []
            (up_string (path_string j))
            (r.set_succeeds x.1 (down_string (down_key (path_string i) (path k))) []),
        up_string-eqb k j hs.0 hj,
        down_string-up_string i k j hi hs.0 hj,
      )

  -- On a database that meets no error, the commit of an object with no removals queued returns,
  -- with nothing more to commit, and each object that was put under it then has it as the object
  -- above. All of them are clean.
  pub stored_up_id-commit :
      (i j : Ident) (h : Hierarchical) (js : List Ident) (d : K.Db)
      → IsReliable K
      → IsClean i
      → IsClean j
      → AllClean js
      → h.add_down_ids ≡ map path js
      → h.remove_down_ids ≡ []
      → h.remove_dkeys ≡ []
      → contains (path j) h.add_down_ids ≡ true
      → ((commit i h d).0 ≡ ok (on_commit h)) × (stored_up_id j (commit i h d).1 ≡ path i)
  unfolding commit commit_remove commit_dkeys stored_up_id
  stored_up_id-commit i j h js d r hi hj hs ea er ek c =
      let found = find-commit_add i j js (commit_up i h d) r hi hj hs in
      (rw (er, ek) refl, rw (er, ek, ea) (ground (arith, found, c, ea, parse-path_string i hi)))
