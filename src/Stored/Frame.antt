-- ===== src/Stored/Frame.antt =====
-- Writes to keys without a separator leave every record whose key holds it: what one mixin writes,
-- the others do not see.
use libinv.Prelude.{
  ℕ, ◌≡◌, true, false, Bytes, Option, contains, list_eqb_iff, nat_ord, list_ord, Bool-cases, inl,
  inr, arith,
}
use libinv.Exception.{Exception}
use libinv.Exec.{unless_fails}
use libinv.Exec.Keeps.{Keeps, unless_fails-state}
use libinv.Extern.Kyoto.{Kyoto}

module _ ⦃K : Kyoto⦄ where
  -- The record of the key is this one, or is not there.
  abbrev pub Holds : Bytes → Option Bytes → K.Db → Type 0
  Holds k found d = K.find d k ≡ found

  pub set_elsewhere :
      (c : ℕ) (w v k : Bytes) (d : K.Db)
      → contains c w ≡ false
      → contains c k ≡ true
      → K.find (K.set d w v).1 k ≡ K.find d k
  set_elsewhere c w v k d n h = elim (Bool-cases (K.set d w v).0) [
    | inl e ↦ ground (arith, K.find-set d w v k e, list_eqb_iff w k)
    | inr e ↦ ground (arith, K.set_failed d w v e)
  ]

  pub remove_elsewhere :
      (c : ℕ) (w k : Bytes) (d : K.Db)
      → contains c w ≡ false
      → contains c k ≡ true
      → K.find (K.remove d w).1 k ≡ K.find d k
  remove_elsewhere c w k d n h = elim (Bool-cases (K.remove d w).0) [
    | inl e ↦ ground (arith, K.find-remove d w k e, list_eqb_iff w k)
    | inr e ↦ ground (arith, K.remove_failed d w e)
  ]

  pub set-Holds :
      (c : ℕ) (w v k : Bytes) (found : Option Bytes) (thrown : Exception)
      → contains c w ≡ false
      → contains c k ≡ true
      → Keeps (Holds k found) (λ d. let r = K.set d w v in unless_fails r.0 thrown r.1)
  set-Holds c w v k found thrown n h = record {
    after = λ d e.
        let r = K.set d w v in
        rw (unless_fails-state r.0 thrown r.1, set_elsewhere c w v k d n h) e;
  }

  pub remove-Holds :
      (c : ℕ) (w k : Bytes) (found : Option Bytes) (thrown : Exception)
      → contains c w ≡ false
      → contains c k ≡ true
      → Keeps (Holds k found) (λ d. let r = K.remove d w in unless_fails r.0 thrown r.1)
  remove-Holds c w k found thrown n h = record {
    after = λ d e.
        let r = K.remove d w in
        rw (unless_fails-state r.0 thrown r.1, remove_elsewhere c w k d n h) e;
  }
