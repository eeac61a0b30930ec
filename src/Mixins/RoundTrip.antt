-- ===== src/Mixins/RoundTrip.antt =====
-- An object that reads the JSON form of another one has the same JSON form.
use libinv.Prelude.{
  ◌≡◌, refl, ◌∙◌, ap, true, List, [], ◌∷◌, ◌++◌, Bytes, codes, none, some, lookup, list_eqb,
  list_eqb_iff, nat_ord, list_ord, Strictly, arith, append_one,
}
use libinv.Exec.{ok}
use libinv.Extern.Json.{Json}
use libinv.Modes.{Modes, fresh}
use libinv.Modes.Repr.{NineBits, modes_repr, modes_from_repr-modes_repr}
use libinv.Mixins.{Mixin, Parts, foreach_repr, foreach_from_repr, mixin_member}
use libinv.Mixins.Repr.{repr, from_repr, id_step, check_type, modes_step, repr_has_id, id_from_repr}

module _ ⦃J : Json⦄ where
  lookup_behind :
      (k : Bytes) (v : J.Value) (acc rest : List (Bytes × J.Value))
      → lookup k acc ≡ none
      → lookup k (acc ++ (k, v) ∷ rest) ≡ some v
  unfolding lookup
  lookup_behind k v [] rest h = ground (arith, list_eqb_iff k k)
  lookup_behind k v ((j, w) ∷ acc) rest h = ground (arith, lookup_behind k v acc rest, h)

module _ ⦃J : Json⦄ {Obj Db : Type 0} where
  -- The id and the modes of an object are kept apart, and an id of one object can be given to
  -- another.
  pub record IsIndexed (P : Parts Obj Db) : Type 0 where
    pub modes-with_modes : (m : Modes) (o : Obj) → P.modes (P.with_modes m o) ≡ m
    pub id-with_modes : (m : Modes) (o : Obj) → P.id (P.with_modes m o) ≡ P.id o
    pub assigned : Obj → Obj → Obj
    pub assigns : (o o' : Obj) → P.assign_id (P.id o) o' ≡ ok (assigned o o')
    pub id-assigned : (o o' : Obj) → P.id (assigned o o') ≡ P.id o
    pub modes-assigned : (o o' : Obj) → P.modes (assigned o o') ≡ P.modes o'

  -- The mixin m reads its own JSON form of the object o, and changes nothing of the id and the modes.
  pub record Reads (P : Parts Obj Db) (m : Mixin Obj Db) (o : Obj) : Type 0 where
    pub returns : (o' : Obj) → (m.from_repr (m.repr o) o').0 ≡ ok tt
    pub restores : (o' : Obj) → m.repr (m.from_repr (m.repr o) o').1 ≡ m.repr o
    pub keeps_id : (o' : Obj) → P.id (m.from_repr (m.repr o) o').1 ≡ P.id o'
    pub keeps_modes : (o' : Obj) → P.modes (m.from_repr (m.repr o) o').1 ≡ P.modes o'

  -- What the mixins in the list read leaves the JSON form of m as it is.
  abbrev pub Undisturbed : Mixin Obj Db → List (Mixin Obj Db) → Obj → Type 0
  Undisturbed m [] o = Unit
  Undisturbed m (n ∷ ms) o =
      ((o' : Obj) → m.repr (n.from_repr (n.repr o) o').1 ≡ m.repr o') × Undisturbed m ms o

  abbrev pub AllRead : Parts Obj Db → List (Mixin Obj Db) → Obj → Type 0
  AllRead P [] o = Unit
  AllRead P (m ∷ ms) o = Reads P m o × Undisturbed m ms o × AllRead P ms o

  -- No mixin of the list has the name of another, or of one of these members.
  abbrev pub Named : List (Bytes × J.Value) → List (Mixin Obj Db) → Obj → Type 0
  Named acc [] o = Unit
  Named acc (m ∷ ms) o =
      (lookup m.mixin_type acc ≡ none) × Named (acc ++ (m.mixin_type, m.repr o) ∷ []) ms o

  Undisturbed-repr :
      (P : Parts Obj Db) (m : Mixin Obj Db) (ms : List (Mixin Obj Db)) (o o' : Obj) (v : J.Value)
      (acc : List (Bytes × J.Value))
      → J.is_object v ≡ true
      → ((k : Bytes) → J.find_member v k ≡ lookup k (acc ++ foreach_repr ms o))
      → Named acc ms o
      → AllRead P ms o
      → Undisturbed m ms o
      → m.repr (foreach_from_repr ms v o').1 ≡ m.repr o'
  unfolding foreach_from_repr foreach_repr mixin_member
  Undisturbed-repr P m [] o o' v acc h f nm r u = refl
  Undisturbed-repr P m (n ∷ ms) o o' v acc h f nm r u =
      let next = (n.from_repr (n.repr o) o').1 in
      let found : J.find_member v n.mixin_type ≡ some (n.repr o) =
        f n.mixin_type ∙ lookup_behind n.mixin_type (n.repr o) acc (foreach_repr ms o) nm.0 in
      let rest =
        Undisturbed-repr P m ms o next v (acc ++ (n.mixin_type, n.repr o) ∷ []) h
          (λ k. rw (append_one acc (n.mixin_type, n.repr o) (foreach_repr ms o)) (f k)) nm.1 r.2
          u.1 in
      ground (arith, h, found, r.0.returns o', rest, u.0 o')

  -- What the mixins read: all of them return, and have their JSON form of o.
  pub mixins_read :
      (P : Parts Obj Db) (ms : List (Mixin Obj Db)) (o o' : Obj) (v : J.Value)
      (acc : List (Bytes × J.Value))
      → J.is_object v ≡ true
      → ((k : Bytes) → J.find_member v k ≡ lookup k (acc ++ foreach_repr ms o))
      → Named acc ms o
      → AllRead P ms o
      → ((foreach_from_repr ms v o').0 ≡ ok tt)
        × (foreach_repr ms (foreach_from_repr ms v o').1 ≡ foreach_repr ms o)
        × (P.id (foreach_from_repr ms v o').1 ≡ P.id o')
        × (P.modes (foreach_from_repr ms v o').1 ≡ P.modes o')
  unfolding foreach_from_repr foreach_repr mixin_member
  mixins_read P [] o o' v acc h f nm r = (refl, refl, refl, refl)
  mixins_read P (m ∷ ms) o o' v acc h f nm r =
      let next = (m.from_repr (m.repr o) o').1 in
      let more : List (Bytes × J.Value) = acc ++ (m.mixin_type, m.repr o) ∷ [] in
      let g : (k : Bytes) → J.find_member v k ≡ lookup k (more ++ foreach_repr ms o) =
        λ k. rw (append_one acc (m.mixin_type, m.repr o) (foreach_repr ms o)) (f k) in
      let found : J.find_member v m.mixin_type ≡ some (m.repr o) =
        f m.mixin_type ∙ lookup_behind m.mixin_type (m.repr o) acc (foreach_repr ms o) nm.0 in
      let rest = mixins_read P ms o next v more h g nm.1 r.2 in
      let still = Undisturbed-repr P m ms o next v more h g nm.1 r.2 r.1 in
      let own = r.0.restores o' in
      (
        ground (arith, h, found, r.0.returns o', rest.0),
        ground (arith, h, found, r.0.returns o', rest.1, still, own),
        ground (arith, h, found, r.0.returns o', rest.2, r.0.keeps_id o'),
        ground (arith, h, found, r.0.returns o', rest.3, r.0.keeps_modes o'),
      )

  -- The members of an object's JSON form in front of its mixins.
  abbrev pub own_members : Parts Obj Db → Obj → List (Bytes × J.Value)
  own_members P o =
      (codes "id", J.text (P.id o))
      ∷ (codes "type", J.text P.type)
      ∷ (codes "modes", modes_repr (P.modes o))
      ∷ []

  -- Before the mixins: the id is assigned, and the type is the object's own.
  id_read :
      (P : Parts Obj Db) (ms : List (Mixin Obj Db)) (o o' : Obj) (l : IsIndexed P)
      → (id_step P ms (repr P ms true o) o' ≡ (ok tt, l.assigned o o'))
        × (check_type P.type (repr P ms true o) ≡ ok tt)
  unfolding id_step repr_has_id id_from_repr check_type repr lookup list_eqb
  id_read P ms o o' l =
      let all : List (Bytes × J.Value) = own_members P o ++ foreach_repr ms o in
      let f = J.find_member-object all in
      (
        ground (
          arith,
          f (codes "id"),
          J.is_text-text (P.id o),
          J.get_text-text (P.id o),
          l.assigns o o',
        ),
        ground (
          arith,
          f (codes "type"),
          J.is_text-text P.type,
          J.get_text-text P.type,
          list_eqb_iff P.type P.type,
        ),
      )

  -- The modes, for an object without any.
  modes_read :
      (P : Parts Obj Db) (ms : List (Mixin Obj Db)) (o o' : Obj)
      → P.modes o' ≡ fresh
      → NineBits (P.modes o).modes
      → Strictly (P.modes o).modes
      → modes_step P ms (repr P ms true o) o' ≡ (
        ok tt,
        P.with_modes
            (record { modes = (P.modes o).modes; add_modes = (P.modes o).modes; remove_modes = [] })
            o',
      )
  unfolding modes_step repr lookup list_eqb
  modes_read P ms o o' e b s =
      let all : List (Bytes × J.Value) = own_members P o ++ foreach_repr ms o in
      ground (
        arith,
        J.find_member-object all (codes "modes"),
        e,
        modes_from_repr-modes_repr (P.modes o) b s,
      )

  from_repr-steps :
      (P : Parts Obj Db) (ms : List (Mixin Obj Db)) (v : J.Value) (o a b : Obj)
      → J.is_object v ≡ true
      → id_step P ms v o ≡ (ok tt, a)
      → check_type P.type v ≡ ok tt
      → modes_step P ms v a ≡ (ok tt, b)
      → from_repr P ms v o ≡ foreach_from_repr ms v b
  unfolding from_repr
  from_repr-steps P ms v o a b h i c m = ground (arith, h, i, c, m)

  repr_same :
      (P : Parts Obj Db) (ms : List (Mixin Obj Db)) (a b : Obj)
      → P.id a ≡ P.id b
      → (P.modes a).modes ≡ (P.modes b).modes
      → foreach_repr ms a ≡ foreach_repr ms b
      → repr P ms true a ≡ repr P ms true b
  unfolding repr modes_repr
  repr_same P ms a b i m f = ground (arith, i, m, f)

  -- A fresh object that reads the JSON form of an object returns without a throw, and has the same
  -- JSON form: id, type, modes and every mixin. The modes are nine bits and sorted by handle; each
  -- mixin reads its own form and leaves the others alone, and no two have one name.
  pub from_repr-restores :
      (P : Parts Obj Db) (ms : List (Mixin Obj Db)) (o o' : Obj)
      → IsIndexed P
      → P.modes o' ≡ fresh
      → NineBits (P.modes o).modes
      → Strictly (P.modes o).modes
      → Named (own_members P o) ms o
      → AllRead P ms o
      → let read = from_repr P ms (repr P ms true o) o' in
        (read.0 ≡ ok tt) × (repr P ms true read.1 ≡ repr P ms true o)
  from_repr-restores P ms o o' l e b s nm all =
      let v = repr P ms true o in
      let h : J.is_object v ≡ true =
        unfold repr in J.is_object-object (own_members P o ++ foreach_repr ms o) in
      let f : (k : Bytes) → J.find_member v k ≡ lookup k (own_members P o ++ foreach_repr ms o) =
        unfold repr in λ k. J.find_member-object (own_members P o ++ foreach_repr ms o) k in
      let started = id_read P ms o o' l in
      let named = l.assigned o o' in
      let m : Modes = record {
        modes = (P.modes o).modes;
        add_modes = (P.modes o).modes;
        remove_modes = [];
      } in
      let moded = modes_read P ms o named (l.modes-assigned o o' ∙ e) b s in
      let rest = mixins_read P ms o (P.with_modes m named) v (own_members P o) h f nm all in
      let steps =
        from_repr-steps P ms v o' named (P.with_modes m named) h started.0 started.1 moded in
      rw steps (
        rest.0,
        repr_same P ms (foreach_from_repr ms v (P.with_modes m named)).1 o
            (rest.2 ∙ (l.id-with_modes m named ∙ l.id-assigned o o'))
            (ap (λ q. q.modes) (rest.3 ∙ l.modes-with_modes m named)) rest.1,
      )
