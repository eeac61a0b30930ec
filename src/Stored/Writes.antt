-- ===== src/Stored/Writes.antt =====
-- Writes and removals keep a database well keyed.
use libinv.Prelude.{
  Bytes, list_eqb, list_eqb_iff, nat_ord, list_ord, Bool-cases, inl, inr, arith, subst,
}
use libinv.Extern.Boost.{Boost}
use libinv.Extern.Kyoto.{Kyoto}
use libinv.Stored.{Stored, WellKeyed}

module _ ⦃B : Boost⦄ ⦃K : Kyoto⦄ where
  pub set-WellKeyed : (d : K.Db) (k v : Bytes) → Stored k → WellKeyed d → WellKeyed (K.set d k v).1
  set-WellKeyed d k v s w j u h = elim (Bool-cases (K.set d k v).0) [
    | inl done ↦ elim (Bool-cases (list_eqb k j)) [
      | inl e ↦ subst Stored ((list_eqb_iff k j).0 e) s
      | inr e ↦ w j u (ground (arith, K.find-set d k v j done))
    ]
    | inr failed ↦ w j u (rw (K.set_failed d k v failed) at h)
  ]

  pub remove-WellKeyed : (d : K.Db) (k : Bytes) → WellKeyed d → WellKeyed (K.remove d k).1
  remove-WellKeyed d k w j u h = elim (Bool-cases (K.remove d k).0) [
    | inl done ↦ w j u (ground (arith, K.find-remove d k j done))
    | inr failed ↦ w j u (rw (K.remove_failed d k failed) at h)
  ]
