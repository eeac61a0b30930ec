-- ===== src/Object/Frames.antt =====
-- What the commit of one mixin leaves alone: the records of the others, told apart by the separator
-- in their keys.
use libinv.Prelude.{
  ℕ, ◌≡◌, refl, ◌∙◌, true, false, List, [], ◌∷◌, ◌++◌, Bytes, Option, contains, map, ◌==◌, nat_ord,
  list_ord,
}
use libinv.Exec.Keeps.{Keeps, Keeps-pure, Keeps-bind}
use libinv.Extern.Boost.{Boost}
use libinv.Extern.Kyoto.{Kyoto}
use libinv.Key.{index_separator, link_separator, attribute_separator, mode_separator}
use libinv.Key.Words.{contains-append, contains_tail}
use libinv.Index.{Ident, path, path_string}
use libinv.Index
use libinv.Index.Identity.{IsClean, is_separator, path_free, contains_plain, all_plain}
use libinv.Stored.Frame.{Holds, set-Holds, remove-Holds, set_elsewhere, remove_elsewhere}
use libinv.Modes.{ModeMap, Modes, mode_string, drop_modes, write_modes, commit_modes}
use libinv.Modes.Scan.{mode_string-eq}
use libinv.Mode
use libinv.Association.{
  Association, link_key, link_string, remove_key, set_key, remove_link, set_link, remove_links,
  set_links,
}
use libinv.Association
use libinv.Association.Links.{link_record, inverted-link_key}
use libinv.Association.Scan.{link_record-eq}
use libinv.Association.Commit.{AllClean}
use libinv.Container.{Container, attribute_string, remove_attributes, set_attributes}
use libinv.Container
use libinv.Container.Tokens.{attribute_string-eq}
use libinv.Container.RoundTrip.{PlainNames}

-- No text of the list holds a separator.
abbrev pub AllPlain : List Bytes → Type 0
AllPlain [] = Unit
AllPlain (k ∷ ks) = (all_plain k ≡ true) × AllPlain ks

-- No handle of the map holds a separator.
abbrev pub PlainHandles : ModeMap → Type 0
PlainHandles [] = Unit
PlainHandles ((h, m) ∷ ms) = (all_plain h ≡ true) × PlainHandles ms

module _ ⦃B : Boost⦄ (c : ℕ) (s : is_separator c ≡ true) (n : (index_separator == c) ≡ false) where
  -- A key of two parts joined by another separator.
  joined_free :
      (i : Ident) (x : ℕ) (w : Bytes)
      → IsClean i
      → (x == c) ≡ false
      → contains c w ≡ false
      → contains c (path_string i ++ x ∷ w) ≡ false
  joined_free i x w h e f =
      contains-append c (path_string i) (x ∷ w) (path_free i c h s n) (contains_tail c x w e f)

  mode_free :
      (i : Ident) (h : Bytes)
      → IsClean i
      → all_plain h ≡ true
      → (mode_separator == c) ≡ false
      → contains c (mode_string i h) ≡ false
  mode_free i h hi p e =
      rw mode_string-eq (joined_free i mode_separator h hi e (contains_plain c h s p))

  attribute_free :
      (i : Ident) (h : Bytes)
      → IsClean i
      → all_plain h ≡ true
      → (attribute_separator == c) ≡ false
      → contains c (attribute_string i h) ≡ false
  attribute_free i h hi p e =
      rw attribute_string-eq (joined_free i attribute_separator h hi e (contains_plain c h s p))

  link_free :
      (i j : Ident)
      → IsClean i
      → IsClean j
      → (link_separator == c) ≡ false
      → contains c (link_record i j) ≡ false
  link_free i j hi hj e =
      rw link_record-eq (joined_free i link_separator (path_string j) hi e (path_free j c hj s n))

  module _ ⦃K : Kyoto⦄ (k : Bytes) (found : Option Bytes) (h : contains c k ≡ true) where
    -- A record whose key holds the separator outlives the commit of the index.
    pub index-Holds : (i : Ident) → IsClean i → Keeps (Holds k found) (Index.commit i)
    unfolding Index.commit
    index-Holds i hi = set-Holds c (path_string i) [] k found _ (path_free i c hi s n) h

    drop_modes-find :
        (i : Ident) (ms : ModeMap) (d : K.Db)
        → IsClean i
        → PlainHandles ms
        → (mode_separator == c) ≡ false
        → K.find (drop_modes i ms d) k ≡ K.find d k
    unfolding drop_modes
    drop_modes-find i [] d hi p e = refl
    drop_modes-find i ((g, m) ∷ ms) d hi p e =
        drop_modes-find i ms (K.remove d (mode_string i g)).1 hi p.1 e
        ∙ remove_elsewhere c (mode_string i g) k d (mode_free i g hi p.0 e) h

    write_modes-find :
        (i : Ident) (ms : ModeMap) (d : K.Db)
        → IsClean i
        → PlainHandles ms
        → (mode_separator == c) ≡ false
        → K.find (write_modes i ms d) k ≡ K.find d k
    unfolding write_modes
    write_modes-find i [] d hi p e = refl
    write_modes-find i ((g, m) ∷ ms) d hi p e =
        write_modes-find i ms (K.set d (mode_string i g) (Mode.string m)).1 hi p.1 e
        ∙ set_elsewhere c (mode_string i g) (Mode.string m) k d (mode_free i g hi p.0 e) h

    -- And the commit of the modes.
    pub commit_modes-find :
        (i : Ident) (m : Modes) (d : K.Db)
        → IsClean i
        → PlainHandles m.remove_modes
        → PlainHandles m.add_modes
        → (mode_separator == c) ≡ false
        → K.find (commit_modes i m d).1 k ≡ K.find d k
    unfolding commit_modes
    commit_modes-find i m d hi pr pa e =
        write_modes-find i m.add_modes (drop_modes i m.remove_modes d) hi pa e
        ∙ drop_modes-find i m.remove_modes d hi pr e

    module _ (e : (link_separator == c) ≡ false) where
      remove_link-Holds :
          (i j : Ident)
          → IsClean i
          → IsClean j
          → Keeps (Holds k found) (remove_link (link_key i (path j)))
      unfolding remove_link remove_key link_record
      remove_link-Holds i j hi hj =
          Keeps-bind (remove_key (link_string (link_key i (path j)))) _
            (remove-Holds c (link_record i j) k found _ (link_free i j hi hj e) h)
            (λ _.
              rw (inverted-link_key i j hi hj)
                (remove-Holds c (link_record j i) k found _ (link_free j i hj hi e) h))

      set_link-Holds :
          (i j : Ident)
          → IsClean i
          → IsClean j
          → Keeps (Holds k found) (set_link (link_key i (path j)))
      unfolding set_link set_key link_record
      set_link-Holds i j hi hj =
          Keeps-bind (set_key (link_string (link_key i (path j)))) _
            (set-Holds c (link_record i j) [] k found _ (link_free i j hi hj e) h)
            (λ _.
              rw (inverted-link_key i j hi hj)
                (set-Holds c (link_record j i) [] k found _ (link_free j i hj hi e) h))

      remove_links-Holds :
          (i : Ident) (js : List Ident)
          → IsClean i
          → AllClean js
          → Keeps (Holds k found) (remove_links i (map path js))
      unfolding remove_links
      remove_links-Holds i [] hi hs = Keeps-pure tt
      remove_links-Holds i (j ∷ js) hi hs =
          Keeps-bind (remove_link (link_key i (path j))) _ (remove_link-Holds i j hi hs.0)
            (λ _. remove_links-Holds i js hi hs.1)

      set_links-Holds :
          (i : Ident) (js : List Ident)
          → IsClean i
          → AllClean js
          → Keeps (Holds k found) (set_links i (map path js))
      unfolding set_links
      set_links-Holds i [] hi hs = Keeps-pure tt
      set_links-Holds i (j ∷ js) hi hs =
          Keeps-bind (set_link (link_key i (path j))) _ (set_link-Holds i j hi hs.0)
            (λ _. set_links-Holds i js hi hs.1)

      -- And the commit of the links.
      pub association-Holds :
          (i : Ident) (a : Association) (rs ps : List Ident)
          → IsClean i
          → AllClean rs
          → AllClean ps
          → a.remove ≡ map path rs
          → a.add ≡ map path ps
          → Keeps (Holds k found) (Association.commit i a)
      unfolding Association.commit
      association-Holds i a rs ps hi hr hp er ep =
          Keeps-bind (remove_links i a.remove) _ (rw er (remove_links-Holds i rs hi hr)) (λ _.
            Keeps-bind (set_links i a.add) _ (rw ep (set_links-Holds i ps hi hp))
              (λ _. Keeps-pure _))

    module _ (e : (attribute_separator == c) ≡ false) where
      remove_attributes-Holds :
          (i : Ident) (ks : List Bytes)
          → IsClean i
          → AllPlain ks
          → Keeps (Holds k found) (remove_attributes i ks)
      unfolding remove_attributes
      remove_attributes-Holds i [] hi p = Keeps-pure tt
      remove_attributes-Holds i (g ∷ ks) hi p =
          Keeps-bind _ _
            (remove-Holds c (attribute_string i g) k found _ (attribute_free i g hi p.0 e) h)
            (λ _. remove_attributes-Holds i ks hi p.1)

      set_attributes-Holds :
          (message : Bytes) (i : Ident) (m : List (Bytes × Bytes))
          → IsClean i
          → PlainNames m
          → Keeps (Holds k found) (set_attributes message i m)
      unfolding set_attributes
      set_attributes-Holds message i [] hi p = Keeps-pure tt
      set_attributes-Holds message i ((g, v) ∷ m) hi p =
          Keeps-bind _ _
            (set-Holds c (attribute_string i g) v k found _ (attribute_free i g hi p.0 e) h)
            (λ _. set_attributes-Holds message i m hi p.1)

      -- And the commit of the attributes.
      pub container-Holds :
          (message : Bytes) (i : Ident) (o : Container)
          → IsClean i
          → AllPlain o.delete
          → PlainNames o.attrs
          → Keeps (Holds k found) (Container.commit message i o)
      unfolding Container.commit
      container-Holds message i o hi pd pa =
          Keeps-bind (remove_attributes i o.delete) _ (remove_attributes-Holds i o.delete hi pd)
            (λ _.
              Keeps-bind (set_attributes message i o.attrs) _
                (set_attributes-Holds message i o.attrs hi pa) (λ _. Keeps-pure _))
