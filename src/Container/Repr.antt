-- ===== src/Container/Repr.antt =====
-- The JSON side of the attributes: from_repr and repr.
use libinv.Prelude.{List, [], ◌∷◌, Bytes, codes, if◌then◌else◌}
use libinv.Exception.{invalid_repr, base}
use libinv.Exec.{Exec, pure, raise, bind}
use libinv.Extern.Json.{Json}
use libinv.Container.{Container, assign, clear}

module _ ⦃J : Json⦄ where
  -- A member's name is a string by its type here, so the test on it passes.
  unfoldable pub attribute_set_each : List (Bytes × J.Value) → Exec Container (Unit {0})
  attribute_set_each [] = pure tt
  attribute_set_each ((name, v) ∷ ms) =
      bind
        (λ c.
          if J.is_text v
          then pure tt (assign name (J.get_text v) c)
          else raise (base invalid_repr (codes "value is not a string")) c)
        λ _. attribute_set_each ms

  unfoldable pub attribute_set_batch : J.Value → Exec Container (Unit {0})
  unfolding attribute_set_each
  attribute_set_batch v c =
      if J.is_object v
      then attribute_set_each (J.members v) c
      else raise (base invalid_repr (codes "kv dict is not an object")) c

  unfoldable pub from_repr : J.Value → Exec Container (Unit {0})
  unfolding attribute_set_batch
  from_repr v c = attribute_set_batch v (clear c)

  unfoldable pub member_values : List (Bytes × Bytes) → List (Bytes × J.Value)
  member_values [] = []
  member_values ((k, v) ∷ m) = (k, J.text v) ∷ member_values m

  unfoldable pub repr : Container → J.Value
  unfolding member_values
  repr c = J.object (member_values c.attrs)
