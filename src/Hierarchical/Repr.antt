-- ===== src/Hierarchical/Repr.antt =====
-- source/include/hierarchical.hh, the JSON form: what from_repr and rpc_update apply to an object,
-- and the value that repr builds.
use libinv.Prelude.{
  ℕ, List, [], ◌∷◌, ◌++◌, Bytes, codes, Option, none, some, insert, nat_ord, list_ord,
  if◌then◌else◌,
}
use libinv.Exception.{Exception, base, invalid_repr}
use libinv.Exec.{Exec, pure, raise, bind}
use libinv.Extern.Boost.{Boost}
use libinv.Extern.Json.{Json}
use libinv.Key.{Key, index_separator, down_separator, empty, parse, string}
use libinv.Hierarchical.{Hierarchical, add_key, subtract_key, clear}

abbrev pub not_text : Bytes → Exception
not_text name = base invalid_repr (name ++ codes " is not a string")

abbrev pub not_array : Bytes → Exception
not_array name = base invalid_repr (name ++ codes " is not an array")

module _ ⦃B : Boost⦄ ⦃J : Json⦄ where
  -- A loop over texts, which keeps what it did before a member that is not one.
  unfoldable pub each_text :
      (Bytes → Hierarchical → Hierarchical)
      → Exception
      → List J.Value
      → Exec Hierarchical (Unit {0})
  each_text act thrown [] = pure tt
  each_text act thrown (v ∷ vs) =
      let rest = each_text act thrown vs in
      if J.is_text v then (λ h. rest (act (J.get_text v) h)) else raise thrown

  unfoldable pub set_down_ids : J.Value → Exec Hierarchical (Unit {0})
  unfolding each_text
  set_down_ids v =
      if J.is_array v
      then each_text (λ s. add_key (parse index_separator s)) (not_text (codes "down_ids member"))
          (J.elements v)
      else raise (not_array (codes "down_ids"))

  unfoldable pub remove_down_ids_of : J.Value → Exec Hierarchical (Unit {0})
  unfolding each_text
  remove_down_ids_of v =
      if J.is_array v
      then each_text (λ s. subtract_key (parse index_separator s))
          (not_text (codes "down_ids member")) (J.elements v)
      else raise (not_array (codes "down_ids"))

  unfoldable pub remove_down_keys : J.Value → Exec Hierarchical (Unit {0})
  unfolding each_text
  remove_down_keys v =
      if J.is_array v
      then each_text
          (λ s h. record h { remove_dkeys = insert (parse down_separator s) h.remove_dkeys })
          (not_text (codes "down_keys member")) (J.elements v)
      else raise (not_array (codes "down_keys"))

  -- set_up_id(const rapidjson::Value &), which does not set m_modified
  unfoldable pub set_up_text : J.Value → Exec Hierarchical (Unit {0})
  set_up_text v h =
      if J.is_text v
      then pure tt (record h { up_id = parse index_separator (J.get_text v) })
      else raise (not_text (codes "up_id")) h

  unfoldable pub if_member :
      Option J.Value → (J.Value → Exec Hierarchical (Unit {0})) → Exec Hierarchical (Unit {0})
  if_member none act = pure tt
  if_member (some v) act = act v

  unfoldable pub from_repr : J.Value → Exec Hierarchical (Unit {0})
  unfolding if_member set_up_text set_down_ids
  from_repr v h =
      if J.is_object v
      then bind (if_member (J.find_member v (codes "up_id")) set_up_text)
          (λ _. if_member (J.find_member v (codes "down_ids")) set_down_ids) (clear h)
      else raise (base invalid_repr (codes "repr is not a json object")) h

  -- The values of keys whose class has the separator c.
  unfoldable pub key_texts : ℕ → List Key → List J.Value
  key_texts c [] = []
  key_texts c (k ∷ ks) = J.text (string c k) ∷ key_texts c ks

  unfoldable pub down_member : List Key → List (Bytes × J.Value)
  unfolding key_texts
  down_member [] = []
  down_member (k ∷ ks) = (codes "down_ids", J.array (key_texts index_separator (k ∷ ks))) ∷ []

  unfoldable pub repr : Hierarchical → J.Value
  unfolding down_member
  repr h = J.object (
      if empty h.up_id
      then down_member h.down_ids
      else (codes "up_id", J.text (string index_separator h.up_id)) ∷ down_member h.down_ids)
