-- ===== src/Modes.antt =====
-- source/include/object.hh, the access modes of an object: a map from handles to modes, with the
-- modes to write and to remove at the next commit.
pub mod Commit
pub mod Repr
pub mod Scan
pub mod Get
use libinv.Prelude.{
  ℕ, Bool, true, false, not, List, [], ◌∷◌, ◌++◌, Bytes, codes, Option, none, some, nat_ord,
  list_ord, lookup, put, without, list_eqb, if◌then◌else◌, ◌||◌,
}
use libinv.Exception.{Exception}
use libinv.Exec.{Result, ok, err, ◌>>=◌, Exec, pure, raise, lift, bind}
use libinv.Extern.Boost.{Boost}
use libinv.Extern.Kyoto.{Kyoto}
use libinv.Key.{Key, at, mode_separator, parse, string, prefix, good}
use libinv.Index.{Ident, path_string}
use libinv.Mode
use libinv.Mode.{Ownership}

-- Object::ModeMap, with a Mode as its bits
abbrev pub ModeMap : Type 0
ModeMap = List (Bytes × ℕ)

pub record Modes : Type 0 where
  pub modes : ModeMap
  pub add_modes : ModeMap
  pub remove_modes : ModeMap

abbrev pub fresh : Modes
fresh = record { modes = []; add_modes = []; remove_modes = [] }

unfoldable pub clear_modes : Modes → Modes
clear_modes m = record { modes = []; add_modes = []; remove_modes = [] }

-- access(handle, owner, right)
unfoldable pub access : Bytes → Ownership → ℕ → Modes → Bool
access handle owner right m = elim (lookup handle m.modes) [
  | none ↦ false
  | some mode ↦ Mode.access mode owner right
]

unfoldable pub set_mode : Bytes → ℕ → Modes → Modes
set_mode handle mode m = record m {
  modes = put handle mode m.modes;
  add_modes = put handle mode m.add_modes;
}

unfoldable pub remove_mode : Bytes → Modes → Modes
remove_mode handle m = elim (lookup handle m.modes) [
  | none ↦ m
  | some mode ↦ record m {
    remove_modes = put handle mode m.remove_modes;
    modes = without handle m.modes;
  }
]

unfoldable pub modes_modified : Modes → Bool
modes_modified m = is_full m.add_modes || is_full m.remove_modes
  where
    is_full : ModeMap → Bool
    is_full [] = false
    is_full (e ∷ es) = true

unfoldable pub on_commit : Modes → Modes
on_commit m = record m { add_modes = []; remove_modes = [] }

module _ ⦃B : Boost⦄ where
  -- ModeKey({path, handle}) as a std::string
  unfoldable pub mode_string : Ident → Bytes → Bytes
  mode_string i handle = string mode_separator (path_string i ∷ handle ∷ [])

  -- The cursor loop of foreach_mode, with get_modes' callback: a record of another path ends it,
  -- a key of more or fewer than two tokens is passed over, and a key of no token throws.
  unfoldable pub scan_modes : Ident → List (Bytes × Bytes) → ModeMap → Result ModeMap
  scan_modes i [] m = ok m
  scan_modes i ((path, modestr) ∷ rest) m =
      let key = parse mode_separator path in
      let kept = (do
        handle ← at key 1
        scan_modes i rest (put handle (Mode.from_string modestr 0) m)) in
      let passed = scan_modes i rest m in
      at key 0 >>= λ own.
      if list_eqb own (path_string i) then (if good key then kept else passed) else ok m

module _ ⦃B : Boost⦄ ⦃K : Kyoto⦄ where
  -- get_modes(db)
  unfoldable pub get_modes : Ident → K.Db → Modes → Result Modes
  get_modes i d m = do
    modes ← scan_modes i (K.records_from d (prefix mode_separator (path_string i))) m.modes
    ok (record m { modes = modes })

  -- The results of the writes of set_mode(db) and remove_mode(db) are ignored by the code.
  unfoldable pub drop_modes : Ident → ModeMap → K.Db → K.Db
  drop_modes i [] d = d
  drop_modes i ((handle, mode) ∷ ms) d = drop_modes i ms (K.remove d (mode_string i handle)).1

  unfoldable pub write_modes : Ident → ModeMap → K.Db → K.Db
  write_modes i [] d = d
  write_modes i ((handle, mode) ∷ ms) d =
      write_modes i ms (K.set d (mode_string i handle) (Mode.string mode)).1

  -- commit_modes(db)
  unfoldable pub commit_modes : Ident → Modes → K.Db → Modes × K.Db
  unfolding on_commit
  commit_modes i m d = (on_commit m, write_modes i m.add_modes (drop_modes i m.remove_modes d))
