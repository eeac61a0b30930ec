-- ===== src/Extern/Kyoto.antt =====
-- kyotocabinet::TreeDB, as the mixins use it: records of bytes, in the bytewise lexical order of
-- their keys.
use libinv.Prelude.{
  ◌≡◌, Bool, true, false, List, Option, none, some, Bytes, list_eqb, list_lessb, Strictly, Has,
  if◌then◌else◌, nat_ord, list_ord,
}

pub record Kyoto : Type 1 where
  pub Db : Type 0
  -- DB::get(key, &value): the value, or nothing where no record has the key
  pub find : Db → Bytes → Option Bytes
  -- DB::set, true on success and false on failure
  pub set : Db → Bytes → Bytes → Bool × Db
  -- DB::remove, true on success and false on failure or where no record has the key
  pub remove : Db → Bytes → Bool × Db
  -- The records that a cursor gives after jump(key), by get(&key, &value, true) until it fails:
  -- none where the jump fails.
  pub records_from : Db → Bytes → List (Bytes × Bytes)
  pub find-set :
      (d : Db) (k v j : Bytes)
      → (set d k v).0 ≡ true
      → find (set d k v).1 j ≡ (if list_eqb k j then some v else find d j)
  pub set_failed : (d : Db) (k v : Bytes) → (set d k v).0 ≡ false → (set d k v).1 ≡ d
  pub find-remove :
      (d : Db) (k j : Bytes)
      → (remove d k).0 ≡ true
      → find (remove d k).1 j ≡ (if list_eqb k j then none else find d j)
  pub remove_failed : (d : Db) (k : Bytes) → (remove d k).0 ≡ false → (remove d k).1 ≡ d
  pub remove_missing : (d : Db) (k : Bytes) → find d k ≡ none → (remove d k).0 ≡ false
  pub records_sorted : (d : Db) (k : Bytes) → Strictly (records_from d k)
  pub records_sound :
      (d : Db) (k j v : Bytes)
      → Has j v (records_from d k)
      → (find d j ≡ some v) × (list_lessb j k ≡ false)
  pub records_complete :
      (d : Db) (k j v : Bytes)
      → find d j ≡ some v
      → list_lessb j k ≡ false
      → Has j v (records_from d k)

-- The database is open for writing and meets no error of the device: a write succeeds, and so does
-- the removal of a record that is there.
pub record IsReliable (K : Kyoto) : Type 0 where
  pub set_succeeds : (d : K.Db) (k v : Bytes) → (K.set d k v).0 ≡ true
  pub remove_succeeds : (d : K.Db) (k v : Bytes) → K.find d k ≡ some v → (K.remove d k).0 ≡ true
