-- ===== src/Modes/Get.antt =====
-- `get_modes` loads exactly the modes of the database, and so what a commit wrote.
use libinv.Prelude.{
  ◌≡◌, ◌≢◌, refl, ◌∙◌, true, false, List, [], ◌∷◌, ◌++◌, Bytes, none, some, lookup, list_eqb,
  list_eqb_iff, list_lessb, list_ord, nat_ord, arith, inl, inr, Option-cases, Above, Above-Has,
  Above-lookup, Strictly, Has-of_lookup, between-prefix, lookup-put, put, if◌then◌else◌,
  extension_not_below,
}
use libinv.Exec.{ok}
use libinv.Extern.Boost.{Boost}
use libinv.Extern.Kyoto.{Kyoto}
use libinv.Key.{parse, prefix, at, good, elements}
use libinv.Key.Words.{pair-eqb, one_token}
use libinv.Index.{Ident, path_string}
use libinv.Index.Identity.{IsClean, contains_plain, all_plain, is_empty}
use libinv.Stored.{WellKeyed}
use libinv.Stored.Cursor.{Scanned, records-Scanned, lookup-records}
use libinv.Mode
use libinv.Modes.{ModeMap, Modes, mode_string, scan_modes, get_modes}
use libinv.Modes.Scan.{percent, percent_separator, Stored-Owned, mode_string-prefix, first_token}

module _ ⦃B : Boost⦄ where
  mode-eqb : (i : Ident) (h k : Bytes) → list_eqb (mode_string i h) (mode_string i k) ≡ list_eqb h k
  unfolding mode_string
  mode-eqb i h k = pair-eqb percent (path_string i) h k

  modes_after :
      (i : Ident) (h k : Bytes) (rs : List (Bytes × Bytes))
      → list_lessb k (prefix percent (path_string i)) ≡ false
      → ((t : Bytes) → k ≢ prefix percent (path_string i) ++ t)
      → Above k rs
      → lookup (mode_string i h) rs ≡ none
  modes_after i h k rs low out above = elim (Option-cases (lookup (mode_string i h) rs)) [
    | inl e ↦ e
    | inr (w, e) ↦
        let below : list_lessb k (mode_string i h) ≡ true =
          Above-Has k (mode_string i h) w rs above (Has-of_lookup (mode_string i h) w rs e) in
        let (t, q) =
          between-prefix (prefix percent (path_string i)) k h low
            (rw mode_string-prefix at below) in
        absurd (out t q)
  ]

  -- The map after the round for a record of i: one without a handle is passed over.
  abbrev kept : Bytes → Bytes → ModeMap → ModeMap
  kept [] v m = m
  kept (x ∷ h) v m = put (x ∷ h) (Mode.from_string v 0) m

  own_round :
      (i : Ident) (name v : Bytes) (rs : List (Bytes × Bytes)) (m : ModeMap)
      → IsClean i
      → all_plain name ≡ true
      → scan_modes i ((mode_string i name, v) ∷ rs) m ≡ scan_modes i rs (kept name v m)
  unfolding scan_modes at good elements parse
  own_round i [] v rs m h p =
      let e = first_token i [] h in
      ground (
        arith,
        mode_string-prefix i [],
        e,
        B.tokens-nil percent,
        list_eqb_iff (path_string i) (path_string i),
      )
  own_round i (x ∷ w) v rs m h p =
      let e = first_token i (x ∷ w) h in
      let one = one_token percent (x ∷ w) (contains_plain percent (x ∷ w) percent_separator p) in
      ground
        (arith, mode_string-prefix i (x ∷ w), e, one, list_eqb_iff (path_string i) (path_string i))

  kept-lookup :
      (name v h : Bytes) (m : ModeMap)
      → is_empty h ≡ false
      → lookup h (kept name v m)
        ≡ (if list_eqb name h then some (Mode.from_string v 0) else lookup h m)
  unfolding is_empty list_eqb
  kept-lookup [] v [] m e = cc
  kept-lookup [] v (y ∷ h) m e = refl
  kept-lookup (x ∷ name) v h m e = lookup-put (x ∷ name) h (Mode.from_string v 0) m

  -- The loop returns, with exactly the modes of the records.
  scan_modes-lookup :
      (i : Ident) (rs : List (Bytes × Bytes)) (m : ModeMap)
      → IsClean i
      → Strictly rs
      → Scanned (prefix percent (path_string i)) rs
      → (m' : ModeMap) × (scan_modes i rs m ≡ ok m')
        × ((h : Bytes)
            → is_empty h ≡ false
            → lookup h m' ≡ elim (lookup (mode_string i h) rs) [
              | none ↦ lookup h m
              | some v ↦ some (Mode.from_string v 0)
            ])
  unfolding scan_modes lookup
  scan_modes-lookup i [] m hi sorted scanned = (m, refl, λ h e. refl)
  scan_modes-lookup i ((k, v) ∷ rs) m hi sorted scanned =
      elim (Stored-Owned i k hi scanned.1 scanned.0) [
        | inl (name, q, p) ↦
            let (m', run, all) = scan_modes-lookup i rs (kept name v m) hi sorted.1 scanned.2 in
            (
              m',
              rw q (own_round i name v rs m hi p) ∙ run,
              λ h e.
                  let same : list_eqb k (mode_string i h) ≡ list_eqb name h =
                    rw q (mode-eqb i name h) in
                  ground (
                    arith,
                    all h e,
                    kept-lookup name v h m e,
                    same,
                    list_eqb_iff k (mode_string i h),
                    Above-lookup k rs sorted.0,
                  ),
            )
        | inr (t, first, n, out) ↦ (
          m,
          ground (arith, first, n),
          λ h e. ground (
            arith,
            modes_after i h k rs scanned.1 out sorted.0,
            list_eqb_iff k (mode_string i h),
            mode_string-prefix i h,
            out h,
          ),
        )
      ]

module _ ⦃B : Boost⦄ ⦃K : Kyoto⦄ where
  -- On a database whose keys are of the known forms, get_modes of a clean object returns, with the
  -- mode of each handle that has a record, and keeps the modes that were known and have none; what
  -- is to be written and removed stays.
  pub get_modes-lookup :
      (i : Ident) (d : K.Db) (m : Modes)
      → IsClean i
      → WellKeyed d
      → (m' : Modes) × (get_modes i d m ≡ ok m')
        × (m'.add_modes ≡ m.add_modes)
        × (m'.remove_modes ≡ m.remove_modes)
        × ((h : Bytes)
            → is_empty h ≡ false
            → lookup h m'.modes ≡ elim (K.find d (mode_string i h)) [
              | none ↦ lookup h m.modes
              | some v ↦ some (Mode.from_string v 0)
            ])
  unfolding get_modes
  get_modes-lookup i d m hi w =
      let pre = prefix percent (path_string i) in
      let (ms, run, all) =
        scan_modes-lookup i (K.records_from d pre) m.modes hi (K.records_sorted d pre)
          (records-Scanned d pre w) in
      (
        record m { modes = ms },
        rw run,
        refl,
        refl,
        λ h e.
            let low : list_lessb (mode_string i h) pre ≡ false =
              rw mode_string-prefix (extension_not_below pre h) in
            rw (← lookup-records d pre (mode_string i h) low) (all h e),
      )
