-- ===== src/FileMap/Balance.antt =====
-- How many files a file map keeps open, and what is left of a map that failed.
use libinv.Prelude.{
  ℕ, ◌+◌, ◌≤◌, suc, ◌≡◌, refl, true, List, [], ◌∷◌, Bytes, none, some, arith, inl, inr, ◌⊎◌,
  Option-cases, is_some,
}
use libinv.Exception.{runtime_error}
use libinv.Exec.{ok, err}
use libinv.FileMap.{
  Memory, null, failed, address, FileMap, Call, opened, closed, unmapped, System, construct,
  is_mapped, map, map_opened, map_sized, data_of, size_of, unmap, close, set_path, mmap_failed,
}

-- How many files were opened, and how many closed.
abbrev pub opens : List Call → ℕ
opens [] = 0
opens (opened fd ∷ cs) = suc (opens cs)
opens (closed fd ∷ cs) = opens cs
opens (unmapped m n ∷ cs) = opens cs

abbrev pub closes : List Call → ℕ
closes [] = 0
closes (opened fd ∷ cs) = closes cs
closes (closed fd ∷ cs) = suc (closes cs)
closes (unmapped m n ∷ cs) = closes cs

-- 1 while the file is mapped
abbrev pub held : Memory → ℕ
held null = 0
held failed = 1
held (address a) = 1

-- What is open is what is mapped, and a mapped file has its descriptor.
pub record Balanced (s : FileMap × List Call) : Type 0 where
  pub count : opens s.1 ≡ closes s.1 + held s.0.mem
  pub owned : is_mapped s.0.mem ≡ true → is_some s.0.fd ≡ true

-- An operation on a file map.
pub data Operation : Type 0 where
  reads : Operation
  renames : Bytes → Operation
  destroys : Operation

module _ (S : System) (file : Bytes) where
  abbrev pub perform : Operation → FileMap × List Call → FileMap × List Call
  perform reads s = (data_of S file s).1
  perform (renames p) s = set_path p s
  perform destroys s = unmap s

  abbrev pub perform_all : List Operation → FileMap × List Call → FileMap × List Call
  perform_all [] s = s
  perform_all (o ∷ os) s = perform_all os (perform o s)

memory_cases : (m : Memory) → (m ≡ null) ⊎ ((m ≡ failed) ⊎ ((a : ℕ) × (m ≡ address a)))
memory_cases null = inl refl
memory_cases failed = inr (inl refl)
memory_cases (address a) = inr (inr (a, refl))

unmap-Balanced : (s : FileMap × List Call) → Balanced s → Balanced (unmap s)
unfolding unmap close
unmap-Balanced (f, calls) b = elim (memory_cases f.mem) [
  | inl e ↦ record { count = ground (arith, e, b.count); owned = ground (arith, e, b.owned) }
  | inr (inl e) ↦ elim (Option-cases f.fd) [
    | inl n ↦ absurd (ground (arith, n, e, b.owned))
    | inr (fd, n) ↦ record { count = ground (arith, n, e, b.count); owned = ground (arith, n, e) }
  ]
  | inr (inr (a, e)) ↦ elim (Option-cases f.fd) [
    | inl n ↦ absurd (ground (arith, n, e, b.owned))
    | inr (fd, n) ↦ record { count = ground (arith, n, e, b.count); owned = ground (arith, n, e) }
  ]
]

held_once : (s : FileMap × List Call) → Balanced s → opens s.1 ≤ closes s.1 + 1
held_once (f, calls) b = elim (memory_cases f.mem) [
  | inl e ↦ ground (arith, e, b.count)
  | inr (inl e) ↦ ground (arith, e, b.count)
  | inr (inr (a, e)) ↦ ground (arith, e, b.count)
]

gone : (s : FileMap × List Call) → Balanced s → opens (unmap s).1 ≡ closes (unmap s).1
unfolding unmap
gone (f, calls) b = elim (memory_cases f.mem) [
  | inl e ↦ ground (arith, e, (unmap-Balanced (f, calls) b).count)
  | inr (inl e) ↦ ground (arith, e, (unmap-Balanced (f, calls) b).count)
  | inr (inr (a, e)) ↦ ground (arith, e, (unmap-Balanced (f, calls) b).count)
]

module _ (S : System) (file : Bytes) where
  map-Balanced :
      (f : FileMap) (calls : List Call)
      → ((cs : List Call) (fd : ℕ) → is_some (S.fstat cs fd) ≡ true)
      → f.mem ≡ null
      → Balanced (f, calls)
      → Balanced (map S file (f, calls)).1
  unfolding map map_opened map_sized
  map-Balanced f calls stats e b = elim (Option-cases (S.open_file calls f.filename)) [
    | inl n ↦ record { count = ground (arith, n, e, b.count); owned = ground (arith, n, e) }
    | inr (fd, n) ↦ elim (Option-cases (S.fstat (opened fd ∷ calls) fd)) [
      | inl m ↦ record {
        count = ground (arith, n, m, stats (opened fd ∷ calls) fd);
        owned = ground (arith, n, m, stats (opened fd ∷ calls) fd);
      }
      | inr (size, m) ↦ elim (Option-cases (S.mmap (opened fd ∷ calls) size fd)) [
        | inl k ↦ record {
          count = ground (arith, n, m, k, e, b.count);
          owned = ground (arith, n, m, k);
        }
        | inr (a, k) ↦ record {
          count = ground (arith, n, m, k, e, b.count);
          owned = ground (arith, n, m, k);
        }
      ]
    ]
  ]

  data_of-Balanced :
      (s : FileMap × List Call)
      → ((cs : List Call) (fd : ℕ) → is_some (S.fstat cs fd) ≡ true)
      → Balanced s
      → Balanced (data_of S file s).1
  unfolding data_of
  data_of-Balanced (f, calls) stats b = elim (memory_cases f.mem) [
    | inl e ↦
        let kept = map-Balanced f calls stats e b in
        record { count = ground (arith, e, kept.count); owned = ground (arith, e, kept.owned) }
    | inr (inl e) ↦ record {
      count = ground (arith, e, b.count);
      owned = ground (arith, e, b.owned);
    }
    | inr (inr (a, e)) ↦ record {
      count = ground (arith, e, b.count);
      owned = ground (arith, e, b.owned);
    }
  ]

  perform-Balanced :
      (o : Operation) (s : FileMap × List Call)
      → ((cs : List Call) (fd : ℕ) → is_some (S.fstat cs fd) ≡ true)
      → Balanced s
      → Balanced (perform S file o s)
  unfolding set_path
  perform-Balanced reads s stats b = data_of-Balanced s stats b
  perform-Balanced (renames p) s stats b =
      let kept = unmap-Balanced s b in record { count = kept.count; owned = kept.owned }
  perform-Balanced destroys s stats b = unmap-Balanced s b

  perform_all-Balanced :
      (os : List Operation) (s : FileMap × List Call)
      → ((cs : List Call) (fd : ℕ) → is_some (S.fstat cs fd) ≡ true)
      → Balanced s
      → Balanced (perform_all S file os s)
  perform_all-Balanced [] s stats b = b
  perform_all-Balanced (o ∷ os) s stats b =
      perform_all-Balanced os (perform S file o s) stats (perform-Balanced o s stats b)

  -- Whatever is done with a new file map, where fstat does not fail: at most one file is open at a
  -- time, and every file that was opened is closed when the file map is destroyed, also where mmap or
  -- open failed in between.
  pub destroyed-closes :
      (filename : Bytes) (os : List Operation)
      → ((cs : List Call) (fd : ℕ) → is_some (S.fstat cs fd) ≡ true)
      → let used = perform_all S file os (construct filename, []) in
        (opens used.1 ≤ closes used.1 + 1) × (opens (unmap used).1 ≡ closes (unmap used).1)
  unfolding construct
  destroyed-closes filename os stats =
      let used = perform_all S file os (construct filename, []) in
      let b =
        perform_all-Balanced os (construct filename, []) stats
          (record { count = refl; owned = λ e. ground arith }) in
      (held_once used b, gone used b)

  -- Where fstat fails, the descriptor is forgotten: the next call of data opens the file again, and
  -- the destructor closes only the second one.
  pub failed_fstat_leaks :
      (f : FileMap) (calls : List Call) (first second size a : ℕ)
      → f.mem ≡ null
      → S.open_file calls f.filename ≡ some first
      → S.fstat (opened first ∷ calls) first ≡ none
      → S.open_file (opened first ∷ calls) f.filename ≡ some second
      → S.fstat (opened second ∷ opened first ∷ calls) second ≡ some size
      → S.mmap (opened second ∷ opened first ∷ calls) size second ≡ some a
      → let again = (data_of S file (data_of S file (f, calls)).1).1 in
        (unmap again).1
        ≡ closed second ∷ unmapped (address a) size ∷ opened second ∷ opened first ∷ calls
  unfolding data_of map map_opened map_sized unmap close
  failed_fstat_leaks f calls first second size a e o1 s1 o2 s2 m =
      ground (arith, e, o1, s1, o2, s2, m)

  -- Where mmap fails, data throws once; the next call returns MAP_FAILED as the data, with the
  -- file's size, and asks the system for nothing.
  pub failed_mmap_returned :
      (f : FileMap) (calls : List Call) (fd size : ℕ)
      → f.mem ≡ null
      → S.open_file calls f.filename ≡ some fd
      → S.fstat (opened fd ∷ calls) fd ≡ some size
      → S.mmap (opened fd ∷ calls) size fd ≡ none
      → let once = data_of S file (f, calls) in
        (once.0 ≡ err (runtime_error (mmap_failed S file)))
        × ((data_of S file once.1).0 ≡ ok failed)
        × ((data_of S file once.1).1 ≡ once.1)
        × (size_of once.1.0 ≡ size)
  unfolding data_of map map_opened map_sized size_of
  failed_mmap_returned f calls fd size e o s m = (
    ground (arith, e, o, s, m),
    ground (arith, e, o, s, m),
    ground (arith, e, o, s, m),
    ground (arith, e, o, s, m),
  )
