-- ===== src/Hierarchical/Upward.antt =====
-- source/include/hierarchical.hh: the walk up the hierarchy, what it returns, and when it does not.
use libinv.Prelude.{
  ℕ, zero, suc, ◌<◌, ◌≡◌, refl, ap, true, false, List, [], ◌∷◌, ◌++◌, Option, none, some, arith,
  if◌then◌else◌,
}
use libinv.Exception.{Exception}
use libinv.Exec.{Result, ok, err, ◌>>=◌}
use libinv.Extern.Boost.{Boost}
use libinv.Extern.Json.{Json}
use libinv.Extern.Kyoto.{Kyoto}
use libinv.Key.{Key, empty}
use libinv.Hierarchical
use libinv.Hierarchical.{Hierarchical}
use libinv.Mixins.{Mixin, Parts}
use libinv.Object.Component.{Component, ident_of}
use libinv.Object.Objects.{up_db}

module _ ⦃B : Boost⦄ ⦃J : Json⦄ ⦃K : Kyoto⦄ {Obj : Type 0} (P : Parts Obj K.Db)
    (ms : List (Mixin Obj K.Db)) (C : Component Obj Hierarchical) (new : Obj) where
  -- The place of an object as get(db) of Hierarchical loads it.
  abbrev pub placed : Obj → K.Db → Hierarchical
  placed o d = Hierarchical.get (ident_of P o) d (C.part o)

  -- upward_ids(db, ovec), with its fuel: the vector is passed by value, and what the recursive call
  -- returns is dropped. `none` where the fuel ends before the recursion does. The object above is new
  -- and has its whole get(db, id), which may throw.
  unfoldable pub upward_ids : ℕ → Obj → K.Db → List Key → Option (Result (List Key))
  upward_ids zero o d ovec = none
  upward_ids (suc fuel) o d ovec =
      let h = placed o d in
      let out = ovec ++ h.up_id ∷ [] in
      let above = up_db P ms new h d in
      if empty h.up_id then some (ok ovec) else elim above.0 [
        | err e ↦ some (err e)
        | ok up ↦ elim (upward_ids fuel up above.1 out) [
          | none ↦ none
          | some (ok dropped) ↦ some (ok out)
          | some (err e) ↦ some (err e)
        ]
      ]

  -- From an object, n objects can be loaded one above the other, up to a root, or to one whose object
  -- above cannot be loaded and throws.
  pub data Chain : Obj → K.Db → ℕ → Result (Unit {0}) → Type 0 where
    root : (o : Obj) (d : K.Db) → empty (placed o d).up_id ≡ true → Chain o d zero (ok tt)
    broken :
        (o : Obj) (d : K.Db) (e : Exception)
        → empty (placed o d).up_id ≡ false
        → (up_db P ms new (placed o d) d).0 ≡ err e
        → Chain o d zero (err e)
    above :
        (o : Obj) (d : K.Db) (up : Obj) {n : ℕ} {end : Result (Unit {0})}
        → empty (placed o d).up_id ≡ false
        → (up_db P ms new (placed o d) d).0 ≡ ok up
        → Chain up (up_db P ms new (placed o d) d).1 n end
        → Chain o d (suc n) end

  -- The vector that was passed, with the object above at its end where there is one.
  abbrev pub direct : Obj → K.Db → List Key → List Key
  direct o d ovec = if empty (placed o d).up_id then ovec else ovec ++ (placed o d).up_id ∷ []

  -- Where the chain above an object ends and the fuel is more than its length: where it ends at a
  -- root, upward_ids returns the object directly above alone, however long the chain is; where an
  -- object further up cannot be loaded, it throws what that load throws.
  pub upward_ids-direct :
      (o : Obj) (d : K.Db) {n : ℕ} {end : Result (Unit {0})} (fuel : ℕ) (ovec : List Key)
      → Chain o d n end
      → n < fuel
      → upward_ids fuel o d ovec ≡ some (end >>= λ _. ok (direct o d ovec))
  unfolding upward_ids
  upward_ids-direct o d zero ovec c h = absurd (omega arith)
  upward_ids-direct o d (suc fuel) ovec (root _ _ e) h = rw e
  upward_ids-direct o d (suc fuel) ovec (broken _ _ _ full e) h = rw (full, e)
  upward_ids-direct o d (suc fuel) ovec (above _ _ up {end = ok u} full e c) h =
      let rest =
        upward_ids-direct up (up_db P ms new (placed o d) d).1 fuel
          (ovec ++ (placed o d).up_id ∷ []) c (omega arith) in
      rw (full, e, rest)
  upward_ids-direct o d (suc fuel) ovec (above _ _ up {end = err x} full e c) h =
      let rest =
        upward_ids-direct up (up_db P ms new (placed o d) d).1 fuel
          (ovec ++ (placed o d).up_id ∷ []) c (omega arith) in
      rw (full, e, rest)

  own_above :
      (o : Obj) (d : K.Db) (fuel : ℕ) (ovec : List Key)
      → empty (placed o d).up_id ≡ false
      → up_db P ms new (placed o d) d ≡ (ok o, d)
      → upward_ids fuel o d ovec ≡ none
  unfolding upward_ids
  own_above o d zero ovec full e = refl
  own_above o d (suc fuel) ovec full e =
      let rest = own_above o d fuel (ovec ++ (placed o d).up_id ∷ []) full e in
      rw (full, ap (λ r. r.0) e, ap (λ r. r.1) e, rest)

  -- Where the object above an object loads as one that is above itself, which its load leaves in the
  -- same database, no fuel is enough.
  pub upward_ids_loops :
      (o up : Obj) (d : K.Db) (fuel : ℕ) (ovec : List Key)
      → empty (placed o d).up_id ≡ false
      → up_db P ms new (placed o d) d ≡ (ok up, d)
      → empty (placed up d).up_id ≡ false
      → up_db P ms new (placed up d) d ≡ (ok up, d)
      → upward_ids fuel o d ovec ≡ none
  unfolding upward_ids
  upward_ids_loops o up d zero ovec full e own loop = refl
  upward_ids_loops o up d (suc fuel) ovec full e own loop =
      let rest = own_above up d fuel (ovec ++ (placed o d).up_id ∷ []) own loop in
      rw (full, ap (λ r. r.0) e, ap (λ r. r.1) e, rest)
