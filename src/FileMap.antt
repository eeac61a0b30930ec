-- ===== src/FileMap.antt =====
-- source/filemap.cc and source/include/filemap.hh: a file that is mapped into memory where its data
-- is first asked for. The answers of the operating system are arguments, and the calls that it gets
-- are recorded, the last one first. `file` is __FILE__.
pub mod Balance
use libinv.Prelude.{
  ℕ, ◌+◌, suc, Bool, true, false, List, [], ◌∷◌, ◌++◌, Bytes, codes, Option, none, some,
}
use libinv.Exception.{no_such_file_of, runtime_error}
use libinv.Exec.{Result, ok, err, Exec}

-- m_mem: nullptr, MAP_FAILED, or an address
pub data Memory : Type 0 where
  null failed : Memory
  address : ℕ → Memory

pub record FileMap : Type 0 where
  pub filename : Bytes
  pub mem : Memory
  pub size : ℕ
  pub fd : Option ℕ

pub data Call : Type 0 where
  opened closed : ℕ → Call
  unmapped : Memory → ℕ → Call

-- open, fstat for the size, and mmap, with -1 and MAP_FAILED as `none`; the answer may depend on the
-- calls before.
pub record System : Type 0 where
  pub open_file : List Call → Bytes → Option ℕ
  pub fstat : List Call → ℕ → Option ℕ
  pub mmap : List Call → ℕ → ℕ → Option ℕ

-- FileMap(filename); FileMap() has the empty name
unfoldable pub construct : Bytes → FileMap
construct filename = record { filename = filename; mem = null; size = 0; fd = none }

abbrev pub is_mapped : Memory → Bool
is_mapped null = false
is_mapped failed = true
is_mapped (address a) = true

module _ (S : System) (file : Bytes) where
  abbrev pub stat_failed : Bytes
  stat_failed = codes "stat() failed: " ++ file

  abbrev pub mmap_failed : Bytes
  mmap_failed = codes "mmap() failed: " ++ file

  map_sized : ℕ → ℕ → Exec (FileMap × List Call) (Unit {0})
  map_sized fd size (f, calls) = elim (S.mmap calls size fd) [
    | none ↦ (err (runtime_error mmap_failed), (record f { size = size; mem = failed }, calls))
    | some a ↦ (ok tt, (record f { size = size; mem = address a }, calls))
  ]

  map_opened : ℕ → Exec (FileMap × List Call) (Unit {0})
  unfolding map_sized
  map_opened fd (f, calls) = elim (S.fstat calls fd) [
    | none ↦ (err (runtime_error stat_failed), (f, calls))
    | some size ↦ map_sized fd size (f, calls)
  ]

  -- map()
  unfoldable pub map : Exec (FileMap × List Call) (Unit {0})
  unfolding map_opened
  map (f, calls) = elim (S.open_file calls f.filename) [
    | none ↦ (err (no_such_file_of f.filename), (record f { fd = none }, calls))
    | some fd ↦ map_opened fd (record f { fd = some fd }, opened fd ∷ calls)
  ]

  -- data()
  unfoldable pub data_of : Exec (FileMap × List Call) Memory
  unfolding map
  data_of (f, calls) = elim f.mem [
    | null ↦
        let r = map (f, calls) in elim r.0 [ err e ↦ (err e, r.1) | ok u ↦ (ok r.1.0.mem, r.1) ]
    | failed ↦ (ok failed, (f, calls))
    | address a ↦ (ok (address a), (f, calls))
  ]

-- size()
unfoldable pub size_of : FileMap → ℕ
size_of f = elim f.mem [ null ↦ 0 | failed ↦ f.size | address a ↦ f.size ]

-- close(m_fd): with -1 it does nothing
close : Option ℕ → List Call → List Call
close none calls = calls
close (some fd) calls = closed fd ∷ calls

-- unmap(), also the destructor
unfoldable pub unmap : FileMap × List Call → FileMap × List Call
unfolding close
unmap (f, calls) = elim f.mem [
  | null ↦ (f, calls)
  | failed ↦ (record f { mem = null }, close f.fd (unmapped failed f.size ∷ calls))
  | address a ↦ (record f { mem = null }, close f.fd (unmapped (address a) f.size ∷ calls))
]

-- path(p)
unfoldable pub set_path : Bytes → FileMap × List Call → FileMap × List Call
unfolding unmap
set_path p s = let t = unmap s in (record t.0 { filename = p }, t.1)
