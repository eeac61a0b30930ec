-- ===== src/Association/Reads.antt =====
-- What a set of links reads from its JSON form, and from the update request of a client.
use libinv.Prelude.{
  ◌≡◌, refl, Bool, true, false, List, [], ◌∷◌, ◌++◌, erase, nat_ord, list_ord, Rising, append_one,
  append_nil, insert_last, erase_all,
}
use libinv.Exec.{ok}
use libinv.Extern.Boost.{Boost}
use libinv.Extern.Json.{Json}
use libinv.Key.{Key, index_separator, string}
use libinv.Key.Words.{AllWords, Plain, parse-string}
use libinv.Association.{Association, associate, disassociate, clear, insert_all, fresh}
use libinv.Association.Repr.{
  assoc_set_each, assoc_set_single, assoc_set_batch, assoc_remove_each, assoc_remove_single,
  assoc_remove_batch, key_values, from_repr, repr,
}

abbrev pub associate_all : List Key → Association → Association
associate_all [] a = a
associate_all (k ∷ ks) a = associate_all ks (associate k a)

abbrev pub disassociate_all : List Key → Association → Association
disassociate_all [] a = a
disassociate_all (k ∷ ks) a = disassociate_all ks (disassociate k a)

-- m_modified after as many writes.
abbrev marked : List Key → Bool → Bool
marked [] m = m
marked (k ∷ ks) m = marked ks true

marked-true : (ks : List Key) → marked ks true ≡ true
marked-true [] = refl
marked-true (k ∷ ks) = marked-true ks

-- Links that are behind those there, one after the other.
associate_all_sorted :
    (ks acc gone : List Key) (m b : Bool)
    → Rising (acc ++ ks)
    → associate_all ks
        (record { assoc = acc; add = acc; remove = gone; modified = m; db_backed = b })
      ≡ record {
        assoc = acc ++ ks;
        add = acc ++ ks;
        remove = erase_all ks gone;
        modified = marked ks m;
        db_backed = b;
      }
unfolding associate
associate_all_sorted [] acc gone m b s = rw (append_nil acc)
associate_all_sorted (k ∷ ks) acc gone m b s = rw (
  insert_last k acc ks s,
  ← append_one acc k ks,
  associate_all_sorted ks (acc ++ k ∷ []) (erase k gone) true b (rw (append_one acc k ks) s),
)

disassociate_all_sorted :
    (ks acc : List Key) (m b : Bool)
    → Rising (acc ++ ks)
    → disassociate_all ks
        (record { assoc = []; add = []; remove = acc; modified = m; db_backed = b })
      ≡ record { assoc = []; add = []; remove = acc ++ ks; modified = marked ks m; db_backed = b }
unfolding disassociate erase
disassociate_all_sorted [] acc m b s = rw (append_nil acc)
disassociate_all_sorted (k ∷ ks) acc m b s = rw (
  insert_last k acc ks s,
  ← append_one acc k ks,
  disassociate_all_sorted ks (acc ++ k ∷ []) true b (rw (append_one acc k ks) s),
)

module _ ⦃B : Boost⦄ ⦃J : Json⦄ where
  assoc_set_single-text :
      (k : Key) (a : Association)
      → AllWords index_separator k
      → assoc_set_single (J.text (string index_separator k)) a ≡ (ok tt, associate k a)
  unfolding assoc_set_single
  assoc_set_single-text k a w = rw (
    J.is_text-text (string index_separator k),
    J.get_text-text (string index_separator k),
    parse-string index_separator k w,
  )

  pub assoc_set_each-key_values :
      (ks : List Key) (a : Association)
      → Plain index_separator ks
      → assoc_set_each (key_values ks) a ≡ (ok tt, associate_all ks a)
  unfolding assoc_set_each key_values
  assoc_set_each-key_values [] a w = refl
  assoc_set_each-key_values (k ∷ ks) a w =
      rw (assoc_set_single-text k a w.0, assoc_set_each-key_values ks (associate k a) w.1)

  assoc_remove_single-text :
      (k : Key) (a : Association)
      → AllWords index_separator k
      → assoc_remove_single (J.text (string index_separator k)) a ≡ (ok tt, disassociate k a)
  unfolding assoc_remove_single
  assoc_remove_single-text k a w = rw (
    J.is_text-text (string index_separator k),
    J.get_text-text (string index_separator k),
    parse-string index_separator k w,
  )

  assoc_remove_each-key_values :
      (ks : List Key) (a : Association)
      → Plain index_separator ks
      → assoc_remove_each (key_values ks) a ≡ (ok tt, disassociate_all ks a)
  unfolding assoc_remove_each key_values
  assoc_remove_each-key_values [] a w = refl
  assoc_remove_each-key_values (k ∷ ks) a w =
      rw (assoc_remove_single-text k a w.0, assoc_remove_each-key_values ks (disassociate k a) w.1)

  pub assoc_set_batch-array :
      (ks : List Key) (a : Association)
      → Plain index_separator ks
      → assoc_set_batch (J.array (key_values ks)) a ≡ (ok tt, associate_all ks a)
  unfolding assoc_set_batch
  assoc_set_batch-array ks a w = rw (
    J.is_array-array (key_values ks),
    J.elements-array (key_values ks),
    assoc_set_each-key_values ks a w,
  )

  -- The links of an object survive their JSON form: an object that reads it has the same links, all
  -- of them to be written at the next commit, and its links from before to be removed, but for those
  -- that it read. The keys are of words and sorted.
  pub from_repr-repr :
      (a b : Association)
      → Plain index_separator a.assoc
      → Rising a.assoc
      → from_repr (repr a) b ≡ (
        ok tt,
        record b {
          assoc = a.assoc;
          add = a.assoc;
          remove = erase_all a.assoc (insert_all b.assoc b.remove);
          modified = true;
        },
      )
  unfolding from_repr repr clear
  from_repr-repr a b w s = rw (
    assoc_set_batch-array a.assoc (clear b) w,
    associate_all_sorted a.assoc [] (insert_all b.assoc b.remove) true b.db_backed s,
    marked-true a.assoc,
  )

  pub assoc_remove_batch-array :
      (ks : List Key) (a : Association)
      → Plain index_separator ks
      → assoc_remove_batch (J.array (key_values ks)) a ≡ (ok tt, disassociate_all ks a)
  unfolding assoc_remove_batch
  assoc_remove_batch-array ks a w = rw (
    J.is_array-array (key_values ks),
    J.elements-array (key_values ks),
    assoc_remove_each-key_values ks a w,
  )

-- What a fresh object has to commit after it was given the links to remove and then those to add.
pub queued :
    (removed added : List Key)
    → Rising removed
    → Rising added
    → let read = associate_all added (disassociate_all removed fresh) in
      (read.add ≡ added) × (read.remove ≡ erase_all added removed)
queued removed added sr sa =
    rw
      (
        disassociate_all_sorted removed [] false false sr,
        associate_all_sorted added [] removed (marked removed false) false sa,
      )
      (refl, refl)
