-- ===== src/Index/Records.antt =====
-- Index records: which objects exist after a write, and the ids that are generated.
use libinv.Prelude.{
  ◌≡◌, refl, ap, Bool, true, false, not, ◌||◌, ◌&&◌, List, [], ◌∷◌, Bytes, some, list_eqb,
  list_eqb_iff, nat_ord, list_ord, arith, inl, inr, Bool-cases, Option-cases,
}
use libinv.Exec.{ok}
use libinv.Extern.Boost.{Boost}
use libinv.Extern.Kyoto.{Kyoto, IsReliable}
use libinv.Key.{key_eqb}
use libinv.Index.{Ident, path, path_string, commit, exists, remove, generate_id}
use libinv.Index.Identity.{IsClean, path_string-injective}

module _ ⦃B : Boost⦄ where
  -- The texts of two clean identities are equal exactly where their paths are.
  pub path_string-eqb :
      (i j : Ident)
      → IsClean i
      → IsClean j
      → list_eqb (path_string i) (path_string j) ≡ key_eqb (path i) (path j)
  unfolding path_string
  path_string-eqb i j hi hj =
      let there : list_eqb (path_string i) (path_string j) ≡ true
          → key_eqb (path i) (path j) ≡ true =
        λ e. (list_eqb_iff (path i) (path j)).1 (
          ap path (
            path_string-injective i j hi hj
              ((list_eqb_iff (path_string i) (path_string j)).0 e))) in
      let back : key_eqb (path i) (path j) ≡ true
          → list_eqb (path_string i) (path_string j) ≡ true =
        λ e. (list_eqb_iff (path_string i) (path_string j)).1 (
          ap (λ k. libinv.Key.string libinv.Key.index_separator k)
            ((list_eqb_iff (path i) (path j)).0 e)) in
      ground (arith, there, back)

module _ ⦃B : Boost⦄ ⦃K : Kyoto⦄ where
  -- After the commit of one clean identity and the removal of another, on a database that meets no
  -- error, both calls have succeeded, and an identity exists that existed or was committed, unless
  -- it was removed.
  pub exists-writes :
      (i j k : Ident) (d : K.Db)
      → IsReliable K
      → IsClean i
      → IsClean j
      → IsClean k
      → ((commit i d).0 ≡ ok tt)
        × (exists k (commit i d).1 ≡ (key_eqb (path i) (path k) || exists k d))
        × (exists k (remove j d).1 ≡ (not (key_eqb (path j) (path k)) && exists k d))
  unfolding commit exists remove
  exists-writes i j k d r hi hj hk =
      let set = r.set_succeeds d (path_string i) [] in
      (
        ground (arith, set),
        ground (
          arith,
          set,
          K.find-set d (path_string i) [] (path_string k),
          path_string-eqb i k hi hk,
        ),
        elim (Option-cases (K.find d (path_string j))) [
          | inl n ↦ ground (
            arith,
            K.remove_missing d (path_string j) n,
            K.remove_failed d (path_string j),
            list_eqb_iff (path_string j) (path_string k),
            path_string-eqb j k hj hk,
          )
          | inr (v, n) ↦ ground (
            arith,
            r.remove_succeeds d (path_string j) v n,
            K.find-remove d (path_string j) (path_string k),
            path_string-eqb j k hj hk,
          )
        ],
      )

  -- One of the ids drawn has no index record.
  unfoldable pub has_unused : Bytes → List Bytes → K.Db → Bool
  has_unused type [] d = false
  has_unused type (drawn ∷ draws) d =
      let i : Ident = record { type = type; id = drawn } in
      not (exists i d) || has_unused type draws d

  -- Where one of the ids drawn has no index record, generate_id returns, with an identity of the
  -- type that has none.
  pub generate_id-unused :
      (type : Bytes) (draws : List Bytes) (d : K.Db)
      → has_unused type draws d ≡ true
      → (i : Ident) × (rest : List Bytes) × (generate_id type draws d ≡ some (i, rest))
        × (exists i d ≡ false)
        × (i.type ≡ type)
  unfolding generate_id has_unused
  generate_id-unused type [] d h = cc
  generate_id-unused type (drawn ∷ draws) d h =
      let i : Ident = record { type = type; id = drawn } in
      elim (Bool-cases (exists i d)) [
        | inl e ↦
            let (j, rest, found, free, kept) = generate_id-unused type draws d (ground arith) in
            (j, rest, ground arith, free, kept)
        | inr e ↦ (i, draws, ground arith, e, refl)
      ]
