-- ===== src/Mixins.antt =====
-- source/include/object.hh, Foreach: the mixins of an object are a list here, each with its
-- operations on the object. The locks are left out: each call is one step.
pub mod Repr
pub mod RoundTrip
pub mod Standard
use libinv.Prelude.{
  ℕ, suc, Bool, true, false, List, [], ◌∷◌, ◌++◌, Bytes, codes, Option, none, some, nat_ord,
  list_ord, if◌then◌else◌,
}
use libinv.Exception.{Exception, base, invalid_repr, no_such_method, no_such_method_of}
use libinv.Exec.{Result, ok, err, ◌>>=◌, Exec, pure, raise, lift, bind}
use libinv.Extern.Json.{Json}
use libinv.Rpc.{rpc_method_get}
use libinv.Modes.{Modes}

-- A method's implementation, which is given the parameters that the call's check has found to be an
-- object.
abbrev pub Impl : ⦃J : Json⦄ → Type 0 → Type 0 → Type 0
Impl ⦃J⦄ Obj Db = J.Value → Exec (Obj × Db) J.Value

-- What Foreach calls of a mixin.
pub record Mixin ⦃J : Json⦄ (Obj Db : Type 0) : Type 0 where
  pub get : Exec (Obj × Db) (Unit {0})
  pub commit : Exec (Obj × Db) (Unit {0})
  pub methods : List (Bytes × Impl Obj Db)
  pub mixin_type : Bytes
  pub repr : Obj → J.Value
  pub from_repr : J.Value → Exec Obj (Unit {0})
  pub clear : Obj → Obj
  pub modified : Obj → Bool
  pub db_backed : Obj → Bool
  pub set_modified : Bool → Obj → Obj
  pub set_db_backed : Bool → Obj → Obj
  pub on_commit : Obj → Obj
  pub on_get : Obj → Obj
  -- with what uuid_string() gives; nullptr is `none`
  pub build_update_request : Bytes → Obj → Result (Option J.Value)

-- What an object has of its index and its modes.
pub record Parts (Obj Db : Type 0) : Type 0 where
  pub type : Bytes
  pub id : Obj → Bytes
  pub assign_id : Bytes → Obj → Result Obj
  pub generate_id : Exec (Obj × Db) (Unit {0})
  pub exists : Obj → Db → Bool
  pub commit_index : Exec (Obj × Db) (Unit {0})
  pub remove_index : Exec (Obj × Db) (Unit {0})
  pub get_modes : Exec (Obj × Db) (Unit {0})
  pub commit_modes : Exec (Obj × Db) (Unit {0})
  pub modes : Obj → Modes
  pub with_modes : Modes → Obj → Obj

module _ ⦃J : Json⦄ where
  -- A member of the representation, and the exception where there is none.
  unfoldable pub mixin_member : J.Value → Bytes → Result J.Value
  mixin_member v name = elim (J.find_member v name) [
    | none ↦ err (base invalid_repr (codes "no \"" ++ (name ++ codes "\" member in repr object")))
    | some r ↦ ok r
  ]

  -- caught by catch (NoSuchMethod &)
  unfoldable pub is_no_such_method : Result J.Value → Bool
  is_no_such_method (err (base no_such_method text)) = true
  is_no_such_method _ = false

module _ ⦃J : Json⦄ {Obj Db : Type 0} where
  -- Foreach: an empty list stands for NullMixin, which does nothing.
  unfoldable pub foreach_get : List (Mixin Obj Db) → Exec (Obj × Db) (Unit {0})
  foreach_get [] = pure tt
  foreach_get (m ∷ ms) = bind m.get λ _. foreach_get ms

  unfoldable pub foreach_commit : List (Mixin Obj Db) → Exec (Obj × Db) (Unit {0})
  foreach_commit [] = pure tt
  foreach_commit (m ∷ ms) = bind m.commit λ _. foreach_commit ms

  unfoldable pub foreach_clear : List (Mixin Obj Db) → Obj → Obj
  foreach_clear [] o = o
  foreach_clear (m ∷ ms) o = foreach_clear ms (m.clear o)

  -- The result of the recursive call is dropped in both.
  unfoldable pub foreach_modified : List (Mixin Obj Db) → Obj → Bool
  foreach_modified [] o = false
  foreach_modified (m ∷ ms) o = if m.modified o then true else false

  unfoldable pub foreach_db_backed : List (Mixin Obj Db) → Obj → Bool
  foreach_db_backed [] o = false
  foreach_db_backed (m ∷ ms) o = if m.db_backed o then true else false

  unfoldable pub foreach_repr : List (Mixin Obj Db) → Obj → List (Bytes × J.Value)
  foreach_repr [] o = []
  foreach_repr (m ∷ ms) o = (m.mixin_type, m.repr o) ∷ foreach_repr ms o

  unfoldable pub foreach_from_repr : List (Mixin Obj Db) → J.Value → Exec Obj (Unit {0})
  foreach_from_repr [] v = pure tt
  foreach_from_repr (m ∷ ms) v =
      if J.is_object v
      then (bind (lift (mixin_member v m.mixin_type))
          λ r. bind (m.from_repr r) λ _. foreach_from_repr ms v)
      else raise (base invalid_repr (codes "repr is not a JSON object"))

  -- The names of the methods of a table, and of all mixins.
  unfoldable pub method_names : List (Bytes × Impl Obj Db) → List Bytes
  method_names [] = []
  method_names ((name, impl) ∷ table) = name ∷ method_names table

  unfoldable pub rpc_method_list : List (Mixin Obj Db) → List Bytes
  unfolding method_names
  rpc_method_list [] = []
  rpc_method_list (m ∷ ms) = method_names m.methods ++ rpc_method_list ms

  -- try, and catch (NoSuchMethod &)
  unfoldable pub otherwise :
      Exec (Obj × Db) J.Value → Exec (Obj × Db) J.Value → Exec (Obj × Db) J.Value
  unfolding is_no_such_method
  otherwise first second s = let r = first s in if is_no_such_method r.0 then second r.1 else r

  -- MethodRoster::rpc_call, at the path that is left of the call's namespace
  unfoldable pub roster_call :
      List (Bytes × Impl Obj Db) → Bytes → J.Value → Exec (Obj × Db) J.Value
  roster_call table path params = bind (lift (rpc_method_get path table)) λ impl. impl params

  unfoldable pub foreach_rpc_call :
      List (Mixin Obj Db) → Bytes → Bytes → J.Value → Exec (Obj × Db) J.Value
  unfolding otherwise roster_call
  foreach_rpc_call [] path method params = raise (no_such_method_of method)
  foreach_rpc_call (m ∷ ms) path method params =
      otherwise (roster_call m.methods path params) (foreach_rpc_call ms path method params)

  -- Foreach::on_commit, on_get, set_modified, set_db_backed
  unfoldable pub foreach_on_commit : List (Mixin Obj Db) → Obj → Obj
  foreach_on_commit [] o = o
  foreach_on_commit (m ∷ ms) o = foreach_on_commit ms (m.on_commit o)

  unfoldable pub foreach_on_get : List (Mixin Obj Db) → Obj → Obj
  foreach_on_get [] o = o
  foreach_on_get (m ∷ ms) o = foreach_on_get ms (m.on_get o)

  unfoldable pub foreach_set_modified : List (Mixin Obj Db) → Bool → Obj → Obj
  foreach_set_modified [] state o = o
  foreach_set_modified (m ∷ ms) state o = foreach_set_modified ms state (m.set_modified state o)

  unfoldable pub foreach_set_db_backed : List (Mixin Obj Db) → Bool → Obj → Obj
  foreach_set_db_backed [] state o = o
  foreach_set_db_backed (m ∷ ms) state o = foreach_set_db_backed ms state (m.set_db_backed state o)

  -- Foreach::mixin_list; Object::mixin_list puts the type of the object before it
  unfoldable pub foreach_mixin_list : List (Mixin Obj Db) → List Bytes
  foreach_mixin_list [] = []
  foreach_mixin_list (m ∷ ms) = m.mixin_type ∷ foreach_mixin_list ms

  -- Foreach::build_update_request, with a callback that pushes back what is not nullptr. Each
  -- mixin draws a uuid.
  unfoldable pub foreach_update_requests :
      List (Mixin Obj Db) → (ℕ → Bytes) → Obj → Result (List J.Value)
  foreach_update_requests [] uuid o = ok []
  foreach_update_requests (m ∷ ms) uuid o = do
    jreq ← m.build_update_request (uuid 0) o
    more ← foreach_update_requests ms (λ n. uuid (suc n)) o
    ok (elim jreq [ none ↦ more | some r ↦ r ∷ more ])
