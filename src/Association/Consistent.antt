-- ===== src/Association/Consistent.antt =====
-- What holds of the links of an object between its operations.
use libinv.Prelude.{
  ◌≡◌, true, not, ◌||◌, List, [], ◌∷◌, Bytes, contains, insert, nat_ord, list_ord, Rising, Apart,
  Rising-insert, Rising-erase, contains-insert, contains-erase, arith, Option-cases, inl, inr,
}
use libinv.Extern.Boost.{Boost}
use libinv.Extern.Kyoto.{Kyoto}
use libinv.Key.{Key, link_separator, parse, prefix}
use libinv.Index.{Ident, path_string}
use libinv.Association.{
  Association, fresh, associate, disassociate, clear, insert_all, on_commit, get, got, on_get,
  scan_links, link_of,
}

-- The sets are sorted, nothing is queued both for addition and for removal, and what is queued for
-- addition is among the links.
pub record IsConsistent (a : Association) : Type 0 where
  pub sorted_assoc : Rising a.assoc
  pub sorted_add : Rising a.add
  pub sorted_remove : Rising a.remove
  pub apart : Apart a.add a.remove
  pub added_known : (k : Key) → (not (contains k a.add) || contains k a.assoc) ≡ true

fresh-IsConsistent : IsConsistent fresh
unfolding contains
fresh-IsConsistent = record {
  sorted_assoc = tt;
  sorted_add = tt;
  sorted_remove = tt;
  apart = λ k. ground arith;
  added_known = λ k. ground arith;
}

associate-IsConsistent :
    (key : Key) (a : Association) → IsConsistent a → IsConsistent (associate key a)
unfolding associate
associate-IsConsistent key a c = record {
  sorted_assoc = Rising-insert key a.assoc c.sorted_assoc;
  sorted_add = Rising-insert key a.add c.sorted_add;
  sorted_remove = Rising-erase key a.remove c.sorted_remove;
  apart =
      λ k. ground (arith, contains-insert key k a.add, contains-erase key k a.remove, c.apart k);
  added_known = λ k.
      ground (arith, contains-insert key k a.add, contains-insert key k a.assoc, c.added_known k);
}

disassociate-IsConsistent :
    (key : Key) (a : Association) → IsConsistent a → IsConsistent (disassociate key a)
unfolding disassociate
disassociate-IsConsistent key a c = record {
  sorted_assoc = Rising-erase key a.assoc c.sorted_assoc;
  sorted_add = Rising-erase key a.add c.sorted_add;
  sorted_remove = Rising-insert key a.remove c.sorted_remove;
  apart =
      λ k. ground (arith, contains-insert key k a.remove, contains-erase key k a.add, c.apart k);
  added_known = λ k.
      ground (arith, contains-erase key k a.add, contains-erase key k a.assoc, c.added_known k);
}

Rising-insert_all : (ks s : List Key) → Rising s → Rising (insert_all ks s)
unfolding insert_all
Rising-insert_all [] s r = r
Rising-insert_all (k ∷ ks) s r = Rising-insert_all ks (insert k s) (Rising-insert k s r)

clear-IsConsistent : (a : Association) → IsConsistent a → IsConsistent (clear a)
unfolding clear contains
clear-IsConsistent a c = record {
  sorted_assoc = tt;
  sorted_add = tt;
  sorted_remove = Rising-insert_all a.assoc a.remove c.sorted_remove;
  apart = λ k. ground arith;
  added_known = λ k. ground arith;
}

on_commit-IsConsistent : (a : Association) → IsConsistent a → IsConsistent (on_commit a)
unfolding on_commit contains
on_commit-IsConsistent a c = record {
  sorted_assoc = c.sorted_assoc;
  sorted_add = tt;
  sorted_remove = tt;
  apart = λ k. ground arith;
  added_known = λ k. ground arith;
}

module _ ⦃B : Boost⦄ where
  Rising-scan_links :
      (i : Ident) (rs : List (Bytes × Bytes)) (s : List Key) → Rising s → Rising (scan_links i rs s)
  unfolding scan_links
  Rising-scan_links i [] s r = r
  Rising-scan_links i ((key, value) ∷ rs) s r =
      elim (Option-cases (link_of i (parse link_separator key))) [
        | inl e ↦ ground (arith, e, r)
        | inr (p, e) ↦
            let all = Rising-scan_links i rs (insert p s) (Rising-insert p s r) in
            ground (arith, e, all)
      ]

  scan_links-grows :
      (i : Ident) (k : Key) (rs : List (Bytes × Bytes)) (s : List Key)
      → contains k s ≡ true
      → contains k (scan_links i rs s) ≡ true
  unfolding scan_links
  scan_links-grows i k [] s h = h
  scan_links-grows i k ((key, value) ∷ rs) s h =
      elim (Option-cases (link_of i (parse link_separator key))) [
        | inl e ↦ ground (arith, e, h)
        | inr (p, e) ↦
            let all =
              scan_links-grows i k rs (insert p s) (ground (arith, contains-insert p k s, h)) in
            ground (arith, e, all)
      ]

module _ ⦃B : Boost⦄ ⦃K : Kyoto⦄ where
  got-IsConsistent :
      (i : Ident) (rs : List (Bytes × Bytes)) (a : Association)
      → IsConsistent a
      → IsConsistent (got i rs a)
  unfolding got on_get
  got-IsConsistent i [] a c = c
  got-IsConsistent i (r ∷ rs) a c = record {
    sorted_assoc = Rising-scan_links i (r ∷ rs) a.assoc c.sorted_assoc;
    sorted_add = c.sorted_add;
    sorted_remove = c.sorted_remove;
    apart = c.apart;
    added_known = λ k. ground (arith, scan_links-grows i k (r ∷ rs) a.assoc, c.added_known k);
  }

  get-IsConsistent :
      (i : Ident) (d : K.Db) (a : Association) → IsConsistent a → IsConsistent (get i d a)
  unfolding get
  get-IsConsistent i d a c =
      got-IsConsistent i (K.records_from d (prefix link_separator (path_string i))) a c

  -- A change of the links of an object.
  pub data Change : Association → Association → Type 0 where
    associates : (key : Key) (a : Association) → Change a (associate key a)
    disassociates : (key : Key) (a : Association) → Change a (disassociate key a)
    clears : (a : Association) → Change a (clear a)
    loads : (i : Ident) (d : K.Db) (a : Association) → Change a (get i d a)
    commits : (a : Association) → Change a (on_commit a)

  -- What a fresh object becomes by changes.
  pub data Changes : Association → Type 0 where
    new : Changes fresh
    changed : {a b : Association} → Changes a → Change a b → Changes b

  step-IsConsistent : {a b : Association} → Change a b → IsConsistent a → IsConsistent b
  step-IsConsistent (associates key a) c = associate-IsConsistent key a c
  step-IsConsistent (disassociates key a) c = disassociate-IsConsistent key a c
  step-IsConsistent (clears a) c = clear-IsConsistent a c
  step-IsConsistent (loads i d a) c = get-IsConsistent i d a c
  step-IsConsistent (commits a) c = on_commit-IsConsistent a c

  -- Whatever is done to a fresh object by associate, disassociate, clear, get and on_commit: its sets
  -- are sorted, nothing is queued both for addition and for removal, and what is queued for addition
  -- is among its links.
  pub Changes-IsConsistent : {a : Association} → Changes a → IsConsistent a
  Changes-IsConsistent new = fresh-IsConsistent
  Changes-IsConsistent (changed past step) = step-IsConsistent step (Changes-IsConsistent past)
