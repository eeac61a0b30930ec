-- ===== src/Association/Repr.antt =====
-- The JSON side of a link set: from_repr, repr, and the batches that link.update applies.
use libinv.Prelude.{List, [], ◌∷◌, codes, if◌then◌else◌}
use libinv.Exception.{Exception, invalid_repr, base}
use libinv.Exec.{Exec, pure, raise, bind}
use libinv.Extern.Boost.{Boost}
use libinv.Extern.Json.{Json}
use libinv.Key.{Key, index_separator, parse, string}
use libinv.Association.{Association, associate, disassociate, clear}

abbrev pub not_a_member : Exception
not_a_member = base invalid_repr (codes "array member is not a string")

abbrev pub not_an_array : Exception
not_an_array = base invalid_repr (codes "value is not an array")

module _ ⦃B : Boost⦄ ⦃J : Json⦄ where
  unfoldable pub assoc_set_single : J.Value → Exec Association (Unit {0})
  assoc_set_single v a =
      if J.is_text v
      then pure tt (associate (parse index_separator (J.get_text v)) a)
      else raise not_a_member a

  unfoldable pub assoc_remove_single : J.Value → Exec Association (Unit {0})
  assoc_remove_single v a =
      if J.is_text v
      then pure tt (disassociate (parse index_separator (J.get_text v)) a)
      else raise not_a_member a

  -- The loops of the batches: what was applied before a throw stays.
  unfoldable pub assoc_set_each : List J.Value → Exec Association (Unit {0})
  assoc_set_each [] = pure tt
  assoc_set_each (v ∷ vs) = bind (assoc_set_single v) λ _. assoc_set_each vs

  unfoldable pub assoc_remove_each : List J.Value → Exec Association (Unit {0})
  assoc_remove_each [] = pure tt
  assoc_remove_each (v ∷ vs) = bind (assoc_remove_single v) λ _. assoc_remove_each vs

  unfoldable pub assoc_set_batch : J.Value → Exec Association (Unit {0})
  assoc_set_batch v a =
      if J.is_array v then assoc_set_each (J.elements v) a else raise not_an_array a

  unfoldable pub assoc_remove_batch : J.Value → Exec Association (Unit {0})
  assoc_remove_batch v a =
      if J.is_array v then assoc_remove_each (J.elements v) a else raise not_an_array a

  unfoldable pub from_repr : J.Value → Exec Association (Unit {0})
  from_repr v a = assoc_set_batch v (clear a)

  unfoldable pub key_values : List Key → List J.Value
  key_values [] = []
  key_values (k ∷ ks) = J.text (string index_separator k) ∷ key_values ks

  unfoldable pub repr : Association → J.Value
  unfolding key_values
  repr a = J.array (key_values a.assoc)
