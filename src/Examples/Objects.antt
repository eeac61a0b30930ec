-- ===== src/Examples/Objects.antt =====
-- The theorems on an object's methods, at an object that is its id and a database of ids.
use libinv.Prelude.{
  true, false, List, [], ◌∷◌, Bytes, codes, none, contains, insert, erase, nat_ord, list_ord,
}
use libinv.Exec.{ok, pure}
use libinv.Extern.Concrete.Document.{document}
use libinv.Mixins.{Mixin, Parts, Impl}
use libinv.Modes.{fresh}

abbrev done : Impl Bytes (List Bytes)
done params = pure (document.text (codes "OK"))

abbrev plain : Mixin Bytes (List Bytes)
plain = record {
  get = pure tt;
  commit = pure tt;
  methods = (codes "plain.update", done) ∷ [];
  mixin_type = codes "plain";
  repr = λ o. document.null;
  from_repr = λ v. pure tt;
  clear = λ o. o;
  modified = λ o. false;
  db_backed = λ o. true;
  set_modified = λ state o. o;
  set_db_backed = λ state o. o;
  on_commit = λ o. o;
  on_get = λ o. o;
  build_update_request = λ uuid o. ok none;
}

abbrev parts : Parts Bytes (List Bytes)
parts = record {
  type = codes "box";
  id = λ o. o;
  assign_id = λ id o. ok id;
  generate_id = pure tt;
  exists = λ o d. contains o d;
  commit_index = λ s. (ok tt, (s.0, insert s.0 s.1));
  remove_index = λ s. (ok tt, (s.0, erase s.0 s.1));
  get_modes = pure tt;
  commit_modes = pure tt;
  modes = λ o. fresh;
  with_modes = λ m o. o;
}

abbrev own : List (Bytes × Impl Bytes (List Bytes))
own = (codes "repr.get", done) ∷ []

abbrev stored : List Bytes
stored = codes "a" ∷ []

abbrev params : document.Value
params = document.object ((codes "id", document.text (codes "a")) ∷ [])
