-- ===== src/Hierarchical/Update.antt =====
-- source/include/hierarchical.hh: the update that a client sends for an object's place in the
-- hierarchy, and the methods by which the server applies it and lists the objects above.
use libinv.Prelude.{
  ℕ, ◌≡◌, refl, ◌∙◌, Bool, true, false, List, [], ◌∷◌, ◌++◌, Bytes, codes, Option, none, some,
  lookup, nat_ord, list_ord, list_eqb, if◌then◌else◌, Rising, Apart, erase_all, erase_all-Apart,
  arith,
}
use libinv.Exec.{Result, ok, err, ◌>>=◌, Exec, pure, lift, bind}
use libinv.Extern.Boost.{Boost}
use libinv.Extern.Json.{Json}
use libinv.Extern.Kyoto.{Kyoto}
use libinv.Key.{index_separator, down_separator, string}
use libinv.Key.Words.{AllWords, Plain}
use libinv.Index.{Ident}
use libinv.Rpc.{param}
use libinv.JsonRpc.Request.{addressed, add_param, request, addressed-request, add_param-request}
use libinv.Mixins.{Mixin, Parts}
use libinv.Object.{guard}
use libinv.Object.Component.{
  Component, on_part, commit_part, acknowledged, IsPart, guard-passed, param-object,
  commit_part-commits,
}
use libinv.Hierarchical.{Hierarchical, fresh, commit, commit_up, add_key, subtract_key}
use libinv.Hierarchical.Repr.{
  key_texts, set_up_text, set_down_ids, remove_down_ids_of, remove_down_keys,
}
use libinv.Hierarchical.Upward.{upward_ids}
use libinv.Hierarchical.Reads.{
  each_key, queue_dkey, marked, set_down_ids-texts, remove_down_ids-texts, remove_down_keys-texts,
  set_up_text-text, add_key_sorted, subtract_key_sorted, queue_dkey_sorted,
}

module _ ⦃B : Boost⦄ ⦃J : Json⦄ where
  -- build_update_request, with what uuid_string() gives; nullptr is `none`
  unfoldable pub build_update_request : Bytes → Ident → Hierarchical → Result (Option J.Value)
  build_update_request uuid i h =
      if h.modified
      then (do
        r0 ←
            addressed (i.id ++ (codes ":" ++ uuid)) (codes "object.hierarchical.update") i.id i.type
        r1 ←
            add_param (codes "add_down_ids") (J.array (key_texts index_separator h.add_down_ids)) r0
        r2 ←
            add_param (codes "remove_down_ids")
              (J.array (key_texts index_separator h.remove_down_ids)) r1
        r3 ←
            add_param (codes "remove_down_keys") (J.array (key_texts down_separator h.remove_dkeys))
              r2
        r4 ← add_param (codes "up_id") (J.text (string index_separator h.up_id)) r3
        ok (some r4))
      else ok none

  -- The parameters of the update.
  abbrev pub update_params : Ident → Hierarchical → List (Bytes × J.Value)
  update_params i h =
      (codes "id", J.text i.id)
      ∷ (codes "type", J.text i.type)
      ∷ (codes "add_down_ids", J.array (key_texts index_separator h.add_down_ids))
      ∷ (codes "remove_down_ids", J.array (key_texts index_separator h.remove_down_ids))
      ∷ (codes "remove_down_keys", J.array (key_texts down_separator h.remove_dkeys))
      ∷ (codes "up_id", J.text (string index_separator h.up_id))
      ∷ []

  pub build_update_request-params :
      (uuid : Bytes) (i : Ident) (h : Hierarchical)
      → h.modified ≡ true
      → build_update_request uuid i h
        ≡ ok (
            some (
              request
                (i.id ++ (codes ":" ++ uuid))
                (codes "object.hierarchical.update")
                (update_params i h)))
  unfolding build_update_request
  build_update_request-params uuid i h m =
      let sid = i.id ++ (codes ":" ++ uuid) in
      let method = codes "object.hierarchical.update" in
      let p0 : List (Bytes × J.Value) =
        (codes "id", J.text i.id) ∷ (codes "type", J.text i.type) ∷ [] in
      let adds = J.array (key_texts index_separator h.add_down_ids) in
      let removes = J.array (key_texts index_separator h.remove_down_ids) in
      let dkeys = J.array (key_texts down_separator h.remove_dkeys) in
      let p1 = p0 ++ (codes "add_down_ids", adds) ∷ [] in
      let p2 = p1 ++ (codes "remove_down_ids", removes) ∷ [] in
      let p3 = p2 ++ (codes "remove_down_keys", dkeys) ∷ [] in
      rw (
        m,
        addressed-request sid method i.id i.type,
        add_param-request sid method (codes "add_down_ids") adds p0,
        add_param-request sid method (codes "remove_down_ids") removes p1,
        add_param-request sid method (codes "remove_down_keys") dkeys p2,
        add_param-request sid method (codes "up_id") (J.text (string index_separator h.up_id)) p3,
      )

module _ ⦃B : Boost⦄ ⦃J : Json⦄ ⦃K : Kyoto⦄ {Obj : Type 0} (P : Parts Obj K.Db)
    (C : Component Obj Hierarchical) where
  -- rpc_update, of a call with these parameters that is a notification or not
  unfoldable pub rpc_update : Bool → J.Value → Exec (Obj × K.Db) J.Value
  unfolding on_part commit_part acknowledged
  rpc_update notification params = bind (guard P [] params) λ _.
      bind (lift (param params (codes "up_id"))) λ jup. bind (on_part P C (set_up_text jup)) λ _.
        bind (lift (param params (codes "remove_down_ids"))) λ jremove.
          bind (on_part P C (remove_down_ids_of jremove)) λ _.
            bind (lift (param params (codes "remove_down_keys"))) λ jdkeys.
              bind (on_part P C (remove_down_keys jdkeys)) λ _.
                bind (lift (param params (codes "add_down_ids"))) λ jadd.
                  bind (on_part P C (set_down_ids jadd))
                    λ _. bind (commit_part P C commit) λ _. pure (acknowledged notification)

  -- rpc_hierarchy, with the fuel of upward_ids; `new` as an object above is before its load;
  -- the object itself is not used afterwards
  unfoldable pub rpc_hierarchy :
      List (Mixin Obj K.Db) → Obj → ℕ → J.Value → Obj × K.Db → Option (Result J.Value)
  unfolding guard
  rpc_hierarchy ms new fuel params s =
      let passed = guard P [] params s in
      elim passed.0 [
        | err e ↦ some (err e)
        | ok u ↦ elim (upward_ids P ms C new fuel passed.1.0 passed.1.1 []) [
          | none ↦ none
          | some (err e) ↦ some (err e)
          | some (ok ids) ↦ some (ok (J.array (key_texts index_separator ids)))
        ]
      ]

module _ ⦃B : Boost⦄ ⦃K : Kyoto⦄ where
  -- A commit depends on what is queued, and on the object above.
  commit-queues :
      {R : Type 0} (answer : R) (i : Ident) (a b : Hierarchical) (d : K.Db)
      → a.up_id ≡ b.up_id
      → a.add_down_ids ≡ b.add_down_ids
      → a.remove_down_ids ≡ b.remove_down_ids
      → a.remove_dkeys ≡ b.remove_dkeys
      → ((commit i a d).1 ≡ (commit i b d).1)
        × (((commit i a d).0 >>= λ _. ok answer) ≡ ((commit i b d).0 >>= λ _. ok answer))
  unfolding commit commit_up
  commit-queues answer i a b d eu ea er ek = (ground arith, ground arith)

module _ ⦃B : Boost⦄ ⦃J : Json⦄ ⦃K : Kyoto⦄ {Obj : Type 0} (P : Parts Obj K.Db)
    (C : Component Obj Hierarchical) where
  -- The server's hierarchical.update, on the parameters of a client's update request, leaves the
  -- database as the client's own commit would: it is acknowledged where that commit returns, and throws what it
  -- throws. The
  -- object is there and was not loaded; the client's keys are of words, its sets sorted, and nothing
  -- is queued both for addition and for removal.
  pub hierarchy_update-commit :
      (n : Bool) (h : Hierarchical) (c : ℕ) (id : Bytes) (o o' : Obj) (d : K.Db)
      → IsPart P C
      → P.assign_id (c ∷ id) o ≡ ok o'
      → P.id o' ≡ c ∷ id
      → P.exists o' d ≡ true
      → C.part o' ≡ fresh
      → AllWords index_separator h.up_id
      → Plain index_separator h.remove_down_ids
      → Plain down_separator h.remove_dkeys
      → Plain index_separator h.add_down_ids
      → Rising h.remove_down_ids
      → Rising h.remove_dkeys
      → Rising h.add_down_ids
      → Apart h.add_down_ids h.remove_down_ids
      → let i : Ident = record { type = P.type; id = c ∷ id } in
        let update = rpc_update P C n (J.object (update_params i h)) (o, d) in
        (update.1.1 ≡ (commit i h d).1)
        × (update.0 ≡ ((commit i h d).0 >>= λ _. ok (acknowledged n)))
  unfolding rpc_update on_part lookup list_eqb
  hierarchy_update-commit n h c id o o' d l assigned own there new wu wr wd wa sr sd sa apart =
      let i : Ident = record { type = P.type; id = c ∷ id } in
      let ps = update_params i h in
      let raised : Hierarchical = record fresh { up_id = h.up_id } in
      let lowered = each_key subtract_key h.remove_down_ids raised in
      let keyed = each_key queue_dkey h.remove_dkeys lowered in
      let read = each_key add_key h.add_down_ids keyed in
      let m = marked h.remove_down_ids false in
      let fields : (read.up_id ≡ h.up_id)
          × (read.add_down_ids ≡ h.add_down_ids)
          × (read.remove_down_ids ≡ erase_all h.add_down_ids h.remove_down_ids)
          × (read.remove_dkeys ≡ h.remove_dkeys) =
        rw
          (
            subtract_key_sorted h.remove_down_ids [] h.up_id false false sr,
            queue_dkey_sorted h.remove_dkeys [] h.remove_down_ids h.up_id m false sd,
            add_key_sorted h.add_down_ids [] h.remove_down_ids h.remove_dkeys h.up_id m false sa,
          )
          (refl, refl, refl, refl) in
      let same =
        commit-queues (acknowledged n) i read h d fields.0 fields.1
          (fields.2 ∙ erase_all-Apart h.add_down_ids h.remove_down_ids apart) fields.3 in
      let done = commit_part-commits P C commit (acknowledged n) read (c ∷ id) o' d l own in
      rw
        (
          guard-passed P [] ps c id o o' d refl assigned there,
          param-object ps (codes "up_id") (J.text (string index_separator h.up_id)) refl,
          param-object ps (codes "remove_down_ids")
              (J.array (key_texts index_separator h.remove_down_ids)) refl,
          param-object ps (codes "remove_down_keys")
              (J.array (key_texts down_separator h.remove_dkeys)) refl,
          param-object ps (codes "add_down_ids")
              (J.array (key_texts index_separator h.add_down_ids)) refl,
          new,
          set_up_text-text h.up_id fresh wu,
          l.part-with_part raised o',
          remove_down_ids-texts h.remove_down_ids raised wr,
          l.with_part-with_part lowered raised o',
          l.part-with_part lowered o',
          remove_down_keys-texts h.remove_dkeys lowered wd,
          l.with_part-with_part keyed lowered o',
          l.part-with_part keyed o',
          set_down_ids-texts h.add_down_ids keyed wa,
          l.with_part-with_part read keyed o',
        )
        (done.0 ∙ same.0, done.1 ∙ same.1)
