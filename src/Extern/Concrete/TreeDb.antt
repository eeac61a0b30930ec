-- ===== src/Extern/Concrete/TreeDb.antt =====
-- A database in memory: the writes in a list, sorted when a cursor reads it.
use libinv.Prelude.{
  ◌≡◌, refl, sym, ◌∙◌, Bool, true, false, List, [], ◌∷◌, none, some, is_some, Bytes, list_eqb,
  list_lessb, lookup, put, without, lookup-put, lookup-without, Strictly, Strictly-put, Has,
  Has-of_lookup, lookup_of_Has, arith, if◌then◌else◌, nat_ord, list_ord, Above, inl, inr,
  Bool-cases,
}
use libinv.Extern.Kyoto.{Kyoto, IsReliable}

abbrev pub Records : Type 0
Records = List (Bytes × Bytes)

pub sort : Records → Records
sort [] = []
sort ((k, v) ∷ m) = put k v (sort m)

lookup-sort : (j : Bytes) (m : Records) → lookup j (sort m) ≡ lookup j m
unfolding sort lookup
lookup-sort j [] = refl
lookup-sort j ((k, v) ∷ m) = ground (arith, lookup-put k j v (sort m), lookup-sort j m)

sort-Strictly : (m : Records) → Strictly (sort m)
unfolding sort
sort-Strictly [] = tt
sort-Strictly ((k, v) ∷ m) = Strictly-put k v (sort m) (sort-Strictly m)

-- The records at k and after it.
pub from : Bytes → Records → Records
from k [] = []
from k ((j, v) ∷ m) = let rest = from k m in if list_lessb j k then rest else (j, v) ∷ rest

Above-from : (i k : Bytes) (m : Records) → Above i m → Above i (from k m)
unfolding from
Above-from i k [] a = tt
Above-from i k ((j, v) ∷ m) a = ground (arith, Above-from i k m a.1)

from-Strictly : (k : Bytes) (m : Records) → Strictly m → Strictly (from k m)
unfolding from
from-Strictly k [] s = tt
from-Strictly k ((j, v) ∷ m) s = ground (arith, from-Strictly k m s.1, Above-from j k m s.0)

abbrev Sound : Bytes → Bytes → Bytes → Records → Type 0
Sound k j v m = Has j v m × (list_lessb j k ≡ false)

from-Sound_kept :
    (k j v i w : Bytes) (m : Records)
    → (Has j v (from k m) → Sound k j v m)
    → list_lessb i k ≡ false
    → Has j v ((i, w) ∷ from k m)
    → Sound k j v ((i, w) ∷ m)
from-Sound_kept k j v i w m ih e (inl p) = (inl p, rw (← p.0) e)
from-Sound_kept k j v i w m ih e (inr p) = (inr (ih p).0, (ih p).1)

from-Sound : (k j v : Bytes) (m : Records) → Has j v (from k m) → Sound k j v m
unfolding from
from-Sound k j v [] h = absurd h
from-Sound k j v ((i, w) ∷ m) h = elim (Bool-cases (list_lessb i k)) [
  | inl e ↦ let r = from-Sound k j v m (rw e at h) in (inr r.0, r.1)
  | inr e ↦ from-Sound_kept k j v i w m (from-Sound k j v m) e (rw e at h)
]

from_complete :
    (k j v : Bytes) (m : Records) → Has j v m → list_lessb j k ≡ false → Has j v (from k m)
unfolding from
from_complete k j v [] h e = absurd h
from_complete k j v ((i, w) ∷ m) (inl p) e = rw (p.0, e) (inl (refl, p.1))
from_complete k j v ((i, w) ∷ m) (inr p) e = elim (Bool-cases (list_lessb i k)) [
  | inl f ↦ rw f (from_complete k j v m p e)
  | inr f ↦ rw f (inr (from_complete k j v m p e))
]

pub set : Records → Bytes → Bytes → Bool × Records
set d k v = (true, (k, v) ∷ d)

pub remove : Records → Bytes → Bool × Records
remove d k = (is_some (lookup k d), without k d)

pub find-set :
    (d : Records) (k v j : Bytes)
    → (set d k v).0 ≡ true
    → lookup j (set d k v).1 ≡ (if list_eqb k j then some v else lookup j d)
unfolding set lookup
find-set d k v j h = refl

pub set_failed : (d : Records) (k v : Bytes) → (set d k v).0 ≡ false → (set d k v).1 ≡ d
unfolding set
set_failed d k v h = cc

pub find-remove :
    (d : Records) (k j : Bytes)
    → (remove d k).0 ≡ true
    → lookup j (remove d k).1 ≡ (if list_eqb k j then none else lookup j d)
unfolding remove
find-remove d k j h = lookup-without k j d

without_missing : (k : Bytes) (m : Records) → lookup k m ≡ none → without k m ≡ m
unfolding lookup without
without_missing k [] h = refl
without_missing k ((j, v) ∷ m) h = ground (arith, without_missing k m)

pub remove_failed : (d : Records) (k : Bytes) → (remove d k).0 ≡ false → (remove d k).1 ≡ d
unfolding remove
remove_failed d k h = without_missing k d (ground arith)

pub remove_missing : (d : Records) (k : Bytes) → lookup k d ≡ none → (remove d k).0 ≡ false
unfolding remove
remove_missing d k h = rw h

pub records_from : Records → Bytes → Records
records_from d k = from k (sort d)

pub records_sorted : (d : Records) (k : Bytes) → Strictly (records_from d k)
unfolding records_from
records_sorted d k = from-Strictly k (sort d) (sort-Strictly d)

pub records_sound :
    (d : Records) (k j v : Bytes)
    → Has j v (records_from d k)
    → (lookup j d ≡ some v) × (list_lessb j k ≡ false)
unfolding records_from
records_sound d k j v h =
    let r = from-Sound k j v (sort d) h in
    (sym (lookup-sort j d) ∙ lookup_of_Has j v (sort d) (sort-Strictly d) r.0, r.1)

pub records_complete :
    (d : Records) (k j v : Bytes)
    → lookup j d ≡ some v
    → list_lessb j k ≡ false
    → Has j v (records_from d k)
unfolding records_from
records_complete d k j v h e =
    from_complete k j v (sort d) (Has-of_lookup j v (sort d) (lookup-sort j d ∙ h)) e

instance unfoldable pub tree_db : Kyoto
unfolding set remove records_from sort from
tree_db = record {
  Db = Records;
  find = λ d k. lookup k d;
  set = set;
  remove = remove;
  records_from = records_from;
  find-set = find-set;
  set_failed = set_failed;
  find-remove = find-remove;
  remove_failed = remove_failed;
  remove_missing = remove_missing;
  records_sorted = records_sorted;
  records_sound = records_sound;
  records_complete = records_complete;
}

unfoldable pub empty_db : tree_db.Db
unfolding tree_db
empty_db = []

set_succeeds : (d : tree_db.Db) (k v : Bytes) → (tree_db.set d k v).0 ≡ true
unfolding tree_db
set_succeeds d k v = refl

remove_succeeds :
    (d : tree_db.Db) (k v : Bytes) → tree_db.find d k ≡ some v → (tree_db.remove d k).0 ≡ true
unfolding tree_db
remove_succeeds d k v h = rw h

pub tree_db-IsReliable : IsReliable tree_db
tree_db-IsReliable = record { set_succeeds = set_succeeds; remove_succeeds = remove_succeeds }
