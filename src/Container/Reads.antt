-- ===== src/Container/Reads.antt =====
-- What a container reads from its JSON form.
use libinv.Prelude.{
  ◌≡◌, refl, List, [], ◌∷◌, ◌++◌, Bytes, nat_ord, list_ord, Strictly, append_one, append_nil,
  put_last,
}
use libinv.Exec.{ok}
use libinv.Extern.Json.{Json}
use libinv.Container.{Container, assign, clear, names}
use libinv.Container.Repr.{attribute_set_each, attribute_set_batch, member_values, from_repr, repr}

abbrev assign_all : List (Bytes × Bytes) → Container → Container
assign_all [] c = c
assign_all ((k, v) ∷ m) c = assign_all m (assign k v c)

assign_all_sorted :
    (m acc : List (Bytes × Bytes)) (c : Container)
    → c.attrs ≡ acc
    → Strictly (acc ++ m)
    → assign_all m c ≡ record c { attrs = acc ++ m }
unfolding assign
assign_all_sorted [] acc c e s = rw (append_nil acc, ← e) refl
assign_all_sorted ((k, v) ∷ m) acc c e s = rw (
  assign_all_sorted m (acc ++ (k, v) ∷ []) (assign k v c) (rw e (put_last k v acc m s))
      (rw (append_one acc (k, v) m) s),
  append_one acc (k, v) m,
)

module _ ⦃J : Json⦄ where
  attribute_set_each-member_values :
      (m : List (Bytes × Bytes)) (c : Container)
      → attribute_set_each (member_values m) c ≡ (ok tt, assign_all m c)
  unfolding attribute_set_each member_values
  attribute_set_each-member_values [] c = refl
  attribute_set_each-member_values ((k, v) ∷ m) c =
      rw (J.is_text-text v, J.get_text-text v, attribute_set_each-member_values m (assign k v c))

  -- The attributes of a container survive their JSON form: a container that reads it has the same
  -- attributes, and the removal of those that it had is queued. The attributes are sorted by name.
  pub attributes-survive :
      (a b : Container)
      → Strictly a.attrs
      → from_repr (repr a) b
        ≡ (ok tt, record b { attrs = a.attrs; delete = b.delete ++ names b.attrs })
  unfolding from_repr repr attribute_set_batch clear
  attributes-survive a b s = rw (
    J.is_object-object (member_values a.attrs),
    J.members-object (member_values a.attrs),
    attribute_set_each-member_values a.attrs (clear b),
    assign_all_sorted a.attrs [] (clear b) refl s,
  )
