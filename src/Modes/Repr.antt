-- ===== src/Modes/Repr.antt =====
-- source/include/object.hh, the JSON form of the access modes: an array of objects with a handle
-- and the text of a mode. The code does not test the kinds of the values that it reads.
use libinv.Prelude.{
  ℕ, ◌<◌, ◌≡◌, refl, List, [], ◌∷◌, Bytes, codes, none, some, lookup, nat_ord, list_ord, list_eqb,
  arith, Strictly, append_nil, append_one, put_last, ◌++◌,
}
use libinv.Exception.{base, invalid_repr}
use libinv.Exec.{ok, Exec, pure, raise, bind}
use libinv.Extern.Json.{Json}
use libinv.Mode
use libinv.Mode.Rights.{from_string-string}
use libinv.Modes.{ModeMap, Modes, fresh, set_mode, remove_mode}

module _ ⦃J : Json⦄ where
  unfoldable pub mode_repr : Bytes → ℕ → J.Value
  mode_repr handle mode =
      J.object ((codes "handle", J.text handle) ∷ (codes "mode", J.text (Mode.string mode)) ∷ [])

  -- foreach_mode(modes, cb), where the callback pushes the mode's value back
  unfoldable pub mode_reprs : ModeMap → List J.Value
  unfolding mode_repr
  mode_reprs [] = []
  mode_reprs ((handle, mode) ∷ ms) = mode_repr handle mode ∷ mode_reprs ms

  unfoldable pub modes_repr : Modes → J.Value
  unfolding mode_reprs
  modes_repr m = J.array (mode_reprs m.modes)

  -- One round of the loop of modes_from_repr.
  unfoldable pub mode_from_repr : J.Value → Exec Modes (Unit {0})
  mode_from_repr v m = elim (J.find_member v (codes "handle")) [
    | none ↦ raise (base invalid_repr (codes "mode repr lacks \"handle\" member")) m
    | some handle ↦ elim (J.find_member v (codes "mode")) [
      | none ↦ raise (base invalid_repr (codes "mode repr lacks \"mode\" member")) m
      | some mode ↦ pure tt (set_mode (J.get_text handle) (Mode.from_string (J.get_text mode) 0) m)
    ]
  ]

  unfoldable pub modes_from_each : List J.Value → Exec Modes (Unit {0})
  unfolding mode_from_repr
  modes_from_each [] = pure tt
  modes_from_each (v ∷ vs) = bind (mode_from_repr v) λ _. modes_from_each vs

  unfoldable pub modes_from_repr : J.Value → Exec Modes (Unit {0})
  unfolding modes_from_each
  modes_from_repr v = modes_from_each (J.elements v)

  -- One round of the loop of remove_modes.
  unfoldable pub remove_from_repr : J.Value → Exec Modes (Unit {0})
  remove_from_repr v m = elim (J.find_member v (codes "handle")) [
    | none ↦ raise (base invalid_repr (codes "mode repr lacks \"handle\" member")) m
    | some handle ↦ pure tt (remove_mode (J.get_text handle) m)
  ]

  unfoldable pub remove_each : List J.Value → Exec Modes (Unit {0})
  unfolding remove_from_repr
  remove_each [] = pure tt
  remove_each (v ∷ vs) = bind (remove_from_repr v) λ _. remove_each vs

  -- remove_modes
  unfoldable pub remove_modes : J.Value → Exec Modes (Unit {0})
  unfolding remove_each
  remove_modes v = remove_each (J.elements v)

-- Every mode of the map is nine bits.
abbrev pub NineBits : ModeMap → Type 0
NineBits [] = Unit
NineBits ((h, m) ∷ ms) = (m < 512) × NineBits ms

-- The modes of a map, set one after the other.
abbrev pub set_all : ModeMap → Modes → Modes
set_all [] m = m
set_all ((h, v) ∷ ms) m = set_all ms (set_mode h v m)

module _ ⦃J : Json⦄ where
  mode_from_repr-mode_repr :
      (h : Bytes) (v : ℕ) (m : Modes)
      → v < 512
      → mode_from_repr (mode_repr h v) m ≡ (ok tt, set_mode h v m)
  unfolding mode_from_repr mode_repr lookup list_eqb
  mode_from_repr-mode_repr h v m b =
      let ms : List (Bytes × J.Value) =
        (codes "handle", J.text h) ∷ (codes "mode", J.text (Mode.string v)) ∷ [] in
      ground (
        arith,
        J.find_member-object ms (codes "handle"),
        J.find_member-object ms (codes "mode"),
        J.get_text-text h,
        J.get_text-text (Mode.string v),
        from_string-string v b,
      )

  pub modes_from_each-mode_reprs :
      (ms : ModeMap) (m : Modes)
      → NineBits ms
      → modes_from_each (mode_reprs ms) m ≡ (ok tt, set_all ms m)
  unfolding modes_from_each mode_reprs
  modes_from_each-mode_reprs [] m b = refl
  modes_from_each-mode_reprs ((h, v) ∷ ms) m b =
      rw (mode_from_repr-mode_repr h v m b.0, modes_from_each-mode_reprs ms (set_mode h v m) b.1)

  -- The modes that are behind those there, set in their order.
  pub set_all_sorted :
      (ms acc : ModeMap) (gone : ModeMap)
      → Strictly (acc ++ ms)
      → set_all ms (record { modes = acc; add_modes = acc; remove_modes = gone })
        ≡ record { modes = acc ++ ms; add_modes = acc ++ ms; remove_modes = gone }
  unfolding set_mode
  set_all_sorted [] acc gone s = rw (append_nil acc)
  set_all_sorted ((h, v) ∷ ms) acc gone s = rw (
    put_last h v acc ms s,
    ← append_one acc (h, v) ms,
    set_all_sorted ms (acc ++ (h, v) ∷ []) gone (rw (append_one acc (h, v) ms) s),
  )

  -- The modes of an object survive their JSON form: a fresh object that reads it has the same modes,
  -- all of them to be written at the next commit. The modes are nine bits and sorted by handle.
  pub modes_from_repr-modes_repr :
      (m : Modes)
      → NineBits m.modes
      → Strictly m.modes
      → modes_from_repr (modes_repr m) fresh
        ≡ (ok tt, record { modes = m.modes; add_modes = m.modes; remove_modes = [] })
  unfolding modes_from_repr modes_repr
  modes_from_repr-modes_repr m b s = rw (
    J.elements-array (mode_reprs m.modes),
    modes_from_each-mode_reprs m.modes fresh b,
    set_all_sorted m.modes [] [] s,
  )
