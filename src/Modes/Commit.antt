-- ===== src/Modes/Commit.antt =====
-- What a commit of the modes leaves in the database.
use libinv.Prelude.{
  ℕ, ◌<◌, ◌≡◌, refl, [], ◌∷◌, Bytes, none, some, is_some, lookup, put, list_eqb, list_eqb_iff,
  nat_ord, list_ord, Strictly, Strictly-put, if◌then◌else◌, arith, inl, inr, Option-cases,
  lookup-put, Above-lookup,
}
use libinv.Extern.Boost.{Boost}
use libinv.Extern.Kyoto.{Kyoto, IsReliable}
use libinv.Key.{mode_separator}
use libinv.Key.Words.{pair-eqb}
use libinv.Index.{Ident, path_string}
use libinv.Mode
use libinv.Mode.Rights.{from_string-string}
use libinv.Modes.{
  ModeMap, Modes, mode_string, set_mode, remove_mode, drop_modes, write_modes, commit_modes,
}

module _ ⦃B : Boost⦄ ⦃K : Kyoto⦄ where
  -- The mode that the record of a handle holds, and 0 where there is none.
  abbrev pub stored_mode : Ident → Bytes → K.Db → ℕ
  stored_mode i handle d = elim (K.find d (mode_string i handle)) [
    | none ↦ 0
    | some modestr ↦ Mode.from_string modestr 0
  ]

  removed_record :
      (d : K.Db) (s j : Bytes)
      → IsReliable K
      → K.find (K.remove d s).1 j ≡ (if list_eqb s j then none else K.find d j)
  removed_record d s j r = elim (Option-cases (K.find d s)) [
    | inl e ↦ ground (arith, K.remove_missing d s e, K.remove_failed d s, list_eqb_iff s j)
    | inr (v, e) ↦ K.find-remove d s j (r.remove_succeeds d s v e)
  ]

  pub find-drop_modes :
      (i : Ident) (h : Bytes) (ms : ModeMap) (d : K.Db)
      → IsReliable K
      → K.find (drop_modes i ms d) (mode_string i h)
        ≡ (if is_some (lookup h ms) then none else K.find d (mode_string i h))
  unfolding drop_modes lookup mode_string
  find-drop_modes i h [] d r = refl
  find-drop_modes i h ((k, v) ∷ ms) d r =
      let e = (K.remove d (mode_string i k)).1 in
      ground (
        arith,
        find-drop_modes i h ms e r,
        removed_record d (mode_string i k) (mode_string i h) r,
        pair-eqb mode_separator (path_string i) k h,
      )

  pub find-write_modes :
      (i : Ident) (h : Bytes) (ms : ModeMap) (d : K.Db)
      → IsReliable K
      → Strictly ms
      → K.find (write_modes i ms d) (mode_string i h)
        ≡ elim (lookup h ms) [ none ↦ K.find d (mode_string i h) | some v ↦ some (Mode.string v) ]
  unfolding write_modes lookup mode_string
  find-write_modes i h [] d r s = refl
  find-write_modes i h ((k, v) ∷ ms) d r s =
      let x = K.set d (mode_string i k) (Mode.string v) in
      ground (
        arith,
        find-write_modes i h ms x.1 r s.1,
        K.find-set d (mode_string i k) (Mode.string v) (mode_string i h)
            (r.set_succeeds d (mode_string i k) (Mode.string v)),
        pair-eqb mode_separator (path_string i) k h,
        Above-lookup k ms s.0,
        list_eqb_iff k h,
      )

  -- After a commit the mode of a handle in the database is the one that was set last, 0 where the
  -- handle was removed and not set, and what it was where the commit has nothing for the handle.
  -- On a database that meets no error, for modes to write that are below 512 and sorted by handle.
  pub stored_mode-commit_modes :
      (i : Ident) (h : Bytes) (m : Modes) (d : K.Db)
      → IsReliable K
      → Strictly m.add_modes
      → ((v : ℕ) → lookup h m.add_modes ≡ some v → v < 512)
      → stored_mode i h (commit_modes i m d).1 ≡ elim (lookup h m.add_modes) [
        | some v ↦ v
        | none ↦ if is_some (lookup h m.remove_modes) then 0 else stored_mode i h d
      ]
  unfolding commit_modes
  stored_mode-commit_modes i h m d r s w =
      let e = drop_modes i m.remove_modes d in
      let f = find-write_modes i h m.add_modes e r s in
      let g = find-drop_modes i h m.remove_modes d r in
      elim (Option-cases (lookup h m.add_modes)) [
        | inl n ↦ ground (arith, f, g)
        | inr (v, n) ↦ ground (arith, f, from_string-string v (w v n))
      ]

  removed_add_modes :
      (h : Bytes) (mode : ℕ) (m : Modes)
      → (remove_mode h (set_mode h mode m)).add_modes ≡ put h mode m.add_modes
  unfolding remove_mode set_mode
  removed_add_modes h mode m = ground (arith, lookup-put h h mode m.modes, list_eqb_iff h h)

  -- A mode below 512 that is set, removed before the commit, and committed, is in the database. On
  -- a database that meets no error, where the modes to write were sorted by handle.
  pub removed_mode_stays :
      (i : Ident) (h : Bytes) (mode : ℕ) (m : Modes) (d : K.Db)
      → IsReliable K
      → Strictly m.add_modes
      → mode < 512
      → stored_mode i h (commit_modes i (remove_mode h (set_mode h mode m)) d).1 ≡ mode
  removed_mode_stays i h mode m d r s w =
      let gone = remove_mode h (set_mode h mode m) in
      let added = removed_add_modes h mode m in
      let found : lookup h gone.add_modes ≡ some mode =
        ground (arith, added, lookup-put h h mode m.add_modes, list_eqb_iff h h) in
      let all =
        stored_mode-commit_modes i h gone d r (rw added (Strictly-put h mode m.add_modes s))
          (λ v e. ground (arith, found)) in
      ground (arith, all, found)
