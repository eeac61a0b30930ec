-- ===== src/Hierarchical/Reads.antt =====
-- What an object reads of its place in the hierarchy, from its JSON form and from the update request
-- of a client.
use libinv.Prelude.{
  ℕ, ◌≡◌, refl, Bool, true, List, [], ◌∷◌, ◌++◌, insert, erase, nat_ord, list_ord, Rising,
  append_one, append_nil, insert_last, erase_all,
}
use libinv.Exception.{Exception}
use libinv.Exec.{ok}
use libinv.Extern.Boost.{Boost}
use libinv.Extern.Json.{Json}
use libinv.Key.{Key, index_separator, down_separator, parse, string}
use libinv.Key.Words.{AllWords, Plain, parse-string}
use libinv.Hierarchical.{Hierarchical, add_key, subtract_key}
use libinv.Hierarchical.Repr.{
  each_text, key_texts, set_down_ids, remove_down_ids_of, remove_down_keys, set_up_text,
}

-- A member function, for one key after the other.
abbrev pub each_key : (Key → Hierarchical → Hierarchical) → List Key → Hierarchical → Hierarchical
each_key act [] h = h
each_key act (k ∷ ks) h = each_key act ks (act k h)

abbrev pub queue_dkey : Key → Hierarchical → Hierarchical
queue_dkey k h = record h { remove_dkeys = insert k h.remove_dkeys }

module _ ⦃B : Boost⦄ ⦃J : Json⦄ where
  each_text-key_texts :
      (act : Key → Hierarchical → Hierarchical) (e : Exception) (c : ℕ) (ks : List Key)
      (h : Hierarchical)
      → Plain c ks
      → each_text (λ s. act (parse c s)) e (key_texts c ks) h ≡ (ok tt, each_key act ks h)
  unfolding each_text key_texts
  each_text-key_texts act e c [] h w = refl
  each_text-key_texts act e c (k ∷ ks) h w = rw (
    J.is_text-text (string c k),
    J.get_text-text (string c k),
    parse-string c k w.0,
    each_text-key_texts act e c ks (act k h) w.1,
  )

  pub set_down_ids-texts :
      (ks : List Key) (h : Hierarchical)
      → Plain index_separator ks
      → set_down_ids (J.array (key_texts index_separator ks)) h ≡ (ok tt, each_key add_key ks h)
  unfolding set_down_ids
  set_down_ids-texts ks h w = rw (
    J.is_array-array (key_texts index_separator ks),
    J.elements-array (key_texts index_separator ks),
    each_text-key_texts add_key _ index_separator ks h w,
  )

  pub remove_down_ids-texts :
      (ks : List Key) (h : Hierarchical)
      → Plain index_separator ks
      → remove_down_ids_of (J.array (key_texts index_separator ks)) h
        ≡ (ok tt, each_key subtract_key ks h)
  unfolding remove_down_ids_of
  remove_down_ids-texts ks h w = rw (
    J.is_array-array (key_texts index_separator ks),
    J.elements-array (key_texts index_separator ks),
    each_text-key_texts subtract_key _ index_separator ks h w,
  )

  pub remove_down_keys-texts :
      (ks : List Key) (h : Hierarchical)
      → Plain down_separator ks
      → remove_down_keys (J.array (key_texts down_separator ks)) h
        ≡ (ok tt, each_key queue_dkey ks h)
  unfolding remove_down_keys
  remove_down_keys-texts ks h w = rw (
    J.is_array-array (key_texts down_separator ks),
    J.elements-array (key_texts down_separator ks),
    each_text-key_texts queue_dkey _ down_separator ks h w,
  )

  pub set_up_text-text :
      (up : Key) (h : Hierarchical)
      → AllWords index_separator up
      → set_up_text (J.text (string index_separator up)) h ≡ (ok tt, record h { up_id = up })
  unfolding set_up_text
  set_up_text-text up h w = rw (
    J.is_text-text (string index_separator up),
    J.get_text-text (string index_separator up),
    parse-string index_separator up w,
  )

-- m_modified after as many writes.
abbrev pub marked : List Key → Bool → Bool
marked [] m = m
marked (k ∷ ks) m = marked ks true

pub marked-true : (ks : List Key) → marked ks true ≡ true
marked-true [] = refl
marked-true (k ∷ ks) = marked-true ks

pub add_key_sorted :
    (ks acc gone dkeys : List Key) (up : Key) (m b : Bool)
    → Rising (acc ++ ks)
    → each_key add_key ks (record {
      up_id = up;
      down_ids = acc;
      add_down_ids = acc;
      remove_down_ids = gone;
      remove_dkeys = dkeys;
      modified = m;
      db_backed = b;
    })
      ≡ record {
        up_id = up;
        down_ids = acc ++ ks;
        add_down_ids = acc ++ ks;
        remove_down_ids = erase_all ks gone;
        remove_dkeys = dkeys;
        modified = marked ks m;
        db_backed = b;
      }
unfolding add_key
add_key_sorted [] acc gone dkeys up m b s = rw (append_nil acc)
add_key_sorted (k ∷ ks) acc gone dkeys up m b s = rw (
  insert_last k acc ks s,
  ← append_one acc k ks,
  add_key_sorted ks (acc ++ k ∷ []) (erase k gone) dkeys up true b (rw (append_one acc k ks) s),
)

pub subtract_key_sorted :
    (ks acc : List Key) (up : Key) (m b : Bool)
    → Rising (acc ++ ks)
    → each_key subtract_key ks (record {
      up_id = up;
      down_ids = [];
      add_down_ids = [];
      remove_down_ids = acc;
      remove_dkeys = [];
      modified = m;
      db_backed = b;
    })
      ≡ record {
        up_id = up;
        down_ids = [];
        add_down_ids = [];
        remove_down_ids = acc ++ ks;
        remove_dkeys = [];
        modified = marked ks m;
        db_backed = b;
      }
unfolding subtract_key erase
subtract_key_sorted [] acc up m b s = rw (append_nil acc)
subtract_key_sorted (k ∷ ks) acc up m b s = rw (
  insert_last k acc ks s,
  ← append_one acc k ks,
  subtract_key_sorted ks (acc ++ k ∷ []) up true b (rw (append_one acc k ks) s),
)

pub queue_dkey_sorted :
    (ks acc gone : List Key) (up : Key) (m b : Bool)
    → Rising (acc ++ ks)
    → each_key queue_dkey ks (record {
      up_id = up;
      down_ids = [];
      add_down_ids = [];
      remove_down_ids = gone;
      remove_dkeys = acc;
      modified = m;
      db_backed = b;
    })
      ≡ record {
        up_id = up;
        down_ids = [];
        add_down_ids = [];
        remove_down_ids = gone;
        remove_dkeys = acc ++ ks;
        modified = m;
        db_backed = b;
      }
queue_dkey_sorted [] acc gone up m b s = rw (append_nil acc)
queue_dkey_sorted (k ∷ ks) acc gone up m b s = rw (
  insert_last k acc ks s,
  ← append_one acc k ks,
  queue_dkey_sorted ks (acc ++ k ∷ []) gone up m b (rw (append_one acc k ks) s),
)
