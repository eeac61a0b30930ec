-- ===== src/Global.antt =====
-- source/include/global.hh: objects that an index record of their type lists, a JSON array of paths.
-- The mixin's state is m_clear; get does nothing.
pub mod Listed
use libinv.Prelude.{
  Bool, true, false, List, [], ◌∷◌, ◌++◌, Bytes, codes, Option, none, some, list_eqb, nat_ord,
  list_ord, if◌then◌else◌,
}
use libinv.Exec.{Result, ok, ◌>>=◌, Exec}
use libinv.Extern.Boost.{Boost}
use libinv.Extern.Json.{Json}
use libinv.Extern.Kyoto.{Kyoto}
use libinv.Key.{Key, index_separator, parse}
use libinv.Index.{Ident, path_string}
use libinv.JsonRpc.Request.{add_param, started}
use libinv.JsonRpc.Reply.{check_batch, throw_error, result, parsed_value}

pub record Global : Type 0 where
  pub clear_flag : Bool

abbrev pub fresh : Global
fresh = record { clear_flag = false }

unfoldable pub clear : Global → Global
clear g = record { clear_flag = true }

unfoldable pub on_commit : Global → Global
on_commit g = record { clear_flag = false }

unfoldable pub on_get : Global → Global
on_get g = record { clear_flag = false }

module _ ⦃J : Json⦄ where
  -- repr; from_repr, set_modified and set_db_backed do nothing, and modified and db_backed are false
  unfoldable pub repr : Global → J.Value
  repr g = J.null

  -- The two loops of commit: is the path in the array, and the array without its first occurrence.
  unfoldable pub lists : Bytes → List J.Value → Bool
  lists path [] = false
  lists path (v ∷ vs) = if list_eqb (J.get_text v) path then true else lists path vs

  unfoldable pub erase_first : Bytes → List J.Value → List J.Value
  erase_first path [] = []
  erase_first path (v ∷ vs) =
      let rest = erase_first path vs in if list_eqb (J.get_text v) path then vs else v ∷ rest

  -- What commit does to the array; it is left as it is where there is nothing to do.
  unfoldable pub updated : Bool → Bytes → J.Value → J.Value
  unfolding lists erase_first
  updated clear_flag path jindex =
      if clear_flag
      then (if lists path (J.elements jindex)
          then J.array (erase_first path (J.elements jindex))
          else jindex)
      else if lists path (J.elements jindex)
      then jindex
      else J.array (J.elements jindex ++ J.text path ∷ [])

module _ ⦃J : Json⦄ ⦃K : Kyoto⦄ where
  -- get_index(db), of a type; a parse error is not noticed
  unfoldable pub get_index : Bytes → K.Db → J.Value
  unfolding parsed_value
  get_index type d = elim (K.find d type) [
    | none ↦ J.array []
    | some index_repr ↦ parsed_value index_repr
  ]

  -- put_index(db, jindex), whose result is ignored
  unfoldable pub put_index : Bytes → J.Value → K.Db → K.Db
  put_index type jindex d = (K.set d type (J.print jindex)).1

  -- rpc_index
  unfoldable pub rpc_index : Bytes → K.Db → J.Value
  unfolding get_index
  rpc_index type d = get_index type d

module _ ⦃B : Boost⦄ ⦃J : Json⦄ ⦃K : Kyoto⦄ where
  -- commit(db); m_clear stays as it is
  unfoldable pub commit : Ident → Global → K.Db → K.Db
  unfolding get_index put_index updated
  commit i g d = put_index i.type (updated g.clear_flag (path_string i) (get_index i.type d)) d

module _ ⦃J : Json⦄ where
  -- build_index_request, of a type, with what uuid_string() gives
  unfoldable pub build_index_request : Bytes → Bytes → Result J.Value
  build_index_request uuid type =
      add_param (codes "type") (J.text type) (started uuid (codes "object.global.index"))

module _ ⦃B : Boost⦄ ⦃J : Json⦄ where
  unfoldable pub index_keys : List J.Value → List Key
  index_keys [] = []
  index_keys (v ∷ vs) = parse index_separator (J.get_text v) ∷ index_keys vs

  -- get_global_index's handler: the keys of the objects that the callback is given. `file` is
  -- __FILE__.
  unfoldable pub global_index : Bytes → J.Value → Result (List Key)
  unfolding index_keys
  global_index file response = do
    _ ← check_batch response
    _ ← throw_error file response
    r ← result response
    ok (index_keys (J.elements r))
