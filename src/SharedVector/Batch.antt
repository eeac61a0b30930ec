-- ===== src/SharedVector/Batch.antt =====
-- The batch of a vector: which object each response reaches.
use libinv.Prelude.{
  ℕ, suc, ◌≡◌, refl, sym, subst, false, List, [], ◌∷◌, ◌++◌, Bytes, codes, none, some, contains,
  lookup, put, lookup-put, list_eqb, list_eqb_iff, nat_ord, list_ord, inl, inr, Option-cases, arith,
}
use libinv.Exec.{Result-cases, ok, Exec, pure, bind}
use libinv.Extern.Json.{Json}
use libinv.JsonRpc.Request.{request, request_members, id_string, addressed-request}
use libinv.JsonRpc.Reply.{check_batch}
use libinv.Client.{BatchClient, ResponseHandler, push_back, dispatch}
use libinv.Mixins.{Mixin, Parts}
use libinv.Object.Requests.{build_get_request, call_id, address}
use libinv.SharedVector.{SharedVector, Store, batch_get_handler, empty_batch, get_async}

module _ ⦃J : Json⦄ {Obj Db : Type 0} (P : Parts Obj Db) (ms : List (Mixin Obj Db))
    (file : Bytes) where
  -- The ids of the requests, in the order of the vector.
  abbrev pub call_ids : (ℕ → Bytes) → SharedVector → Store Obj → List Bytes
  call_ids uuid [] st = []
  call_ids uuid (p ∷ vec) st = elim (st p) [
    | none ↦ []
    | some o ↦ call_id P ms (uuid 0) o ∷ call_ids (λ n. uuid (suc n)) vec st
  ]

  -- No id is drawn twice.
  abbrev pub Different : List Bytes → Type 0
  Different [] = Unit
  Different (id ∷ ids) = (contains id ids ≡ false) × Different ids

  -- Single responses that carry the ids, in this order.
  abbrev pub Answered : List Bytes → List J.Value → Type 0
  Answered [] [] = Unit
  Answered [] (v ∷ vs) = ⊥
  Answered (id ∷ ids) [] = ⊥
  Answered (id ∷ ids) (v ∷ vs) = (check_batch v ≡ ok tt) × (id_string v ≡ ok id) × Answered ids vs

  -- Each object of the vector gets the response at its place.
  abbrev pub each_gets : SharedVector → List J.Value → Exec (Store Obj) (Unit {0})
  each_gets [] vs = pure tt
  each_gets (p ∷ vec) [] = pure tt
  each_gets (p ∷ vec) (v ∷ vs) = bind (batch_get_handler P ms file p v) λ _. each_gets vec vs

  -- The handler of each id is that of the object at its place.
  abbrev Found : List (Bytes × ResponseHandler (Store Obj)) → List Bytes → SharedVector → Type 0
  Found hs [] [] = Unit
  Found hs [] (p ∷ vec) = ⊥
  Found hs (id ∷ ids) [] = ⊥
  Found hs (id ∷ ids) (p ∷ vec) =
      (lookup id hs ≡ some (batch_get_handler P ms file p)) × Found hs ids vec

  -- One round of get_async, for an object that is there and a batch that was not sent.
  pub pushed :
      (uuid : Bytes) (o : Obj) (p : ℕ) (b : BatchClient (Store Obj)) (rs : List J.Value)
      → b.requests ≡ some rs
      → let sid = call_id P ms uuid o in
        let jreq = request sid (codes "object.repr.get") (address P ms (P.id o)) in
        (build_get_request P ms uuid o (P.id o) ≡ ok jreq)
        × (push_back jreq (batch_get_handler P ms file p) b
            ≡ some (
                ok (record b {
                  handlers = put sid (batch_get_handler P ms file p) b.handlers;
                  requests = some (rs ++ jreq ∷ []);
                })))
  unfolding build_get_request push_back id_string lookup list_eqb
  pushed uuid o p b rs e =
      let sid = call_id P ms uuid o in
      let members = request_members sid (codes "object.repr.get") (address P ms (P.id o)) in
      (
        addressed-request sid (codes "object.repr.get") (P.id o) P.type,
        ground (arith, e, J.find_member-object members (codes "id"), J.get_text-text sid),
      )

  get_async-Found :
      (uuid : ℕ → Bytes) (vec : SharedVector) (st : Store Obj) (b b' : BatchClient (Store Obj))
      (rs : List J.Value)
      → b.requests ≡ some rs
      → Different (call_ids uuid vec st)
      → get_async P ms file uuid vec st b ≡ some (ok b')
      → Found b'.handlers (call_ids uuid vec st) vec
        × ((id : Bytes)
            → contains id (call_ids uuid vec st) ≡ false
            → lookup id b'.handlers ≡ lookup id b.handlers)
  unfolding get_async contains
  get_async-Found uuid [] st b b' rs e n g = (tt, λ id h. ground (arith, g))
  get_async-Found uuid (p ∷ vec) st b b' rs e n g = elim (Option-cases (st p)) [
    | inl x ↦ absurd (ground (arith, x, g))
    | inr (o, x) ↦
        let sid = call_id P ms (uuid 0) o in
        let jreq = request sid (codes "object.repr.get") (address P ms (P.id o)) in
        let b1 : BatchClient (Store Obj) = record b {
          handlers = put sid (batch_get_handler P ms file p) b.handlers;
          requests = some (rs ++ jreq ∷ []);
        } in
        let round = pushed (uuid 0) o p b rs e in
        let ids = call_ids (λ k. uuid (suc k)) vec st in
        let here : call_ids uuid (p ∷ vec) st ≡ sid ∷ ids = ground (arith, x) in
        let d : Different (sid ∷ ids) = subst Different here n in
        let more : get_async P ms file (λ k. uuid (suc k)) vec st b1 ≡ some (ok b') =
          ground (arith, x, round, g) in
        let (found, kept) =
          get_async-Found (λ k. uuid (suc k)) vec st b1 b' (rs ++ jreq ∷ []) refl d.1 more in
        subst
          (λ all.
            Found b'.handlers all (p ∷ vec)
            × ((id : Bytes)
                → contains id all ≡ false
                → lookup id b'.handlers ≡ lookup id b.handlers))
          (sym here)
          (
            (
              ground (
                arith,
                kept sid d.0,
                lookup-put sid sid (batch_get_handler P ms file p) b.handlers,
                list_eqb_iff sid sid,
              ),
              found,
            ),
            λ id h.
                ground
                  (arith, kept id, h, lookup-put sid id (batch_get_handler P ms file p) b.handlers),
          )
  ]

  Found-dispatch :
      (hs : List (Bytes × ResponseHandler (Store Obj))) (ids : List Bytes) (vec : SharedVector)
      (vs : List J.Value) (st : Store Obj)
      → Found hs ids vec
      → Answered ids vs
      → dispatch hs vs st ≡ each_gets vec vs st
  unfolding dispatch
  Found-dispatch hs [] [] [] st f a = refl
  Found-dispatch hs [] [] (v ∷ vs) st f a = absurd a
  Found-dispatch hs [] (p ∷ vec) vs st f a = absurd f
  Found-dispatch hs (id ∷ ids) [] vs st f a = absurd f
  Found-dispatch hs (id ∷ ids) (p ∷ vec) [] st f a = absurd a
  Found-dispatch hs (id ∷ ids) (p ∷ vec) (v ∷ vs) st f a =
      elim (Result-cases (batch_get_handler P ms file p v st).0) [
        | inl (u, x) ↦ ground (
          arith,
          a.0,
          a.1,
          f.0,
          x,
          Found-dispatch hs ids vec vs (batch_get_handler P ms file p v st).1 f.1 a.2,
        )
        | inr (y, x) ↦ ground (arith, a.0, a.1, f.0, x)
      ]

  -- No object of the vector is gone.
  abbrev pub AllThere : Store Obj → SharedVector → Type 0
  AllThere st [] = Unit
  AllThere st (p ∷ vec) = ((o : Obj) × (st p ≡ some o)) × AllThere st vec

  get_async-returns :
      (uuid : ℕ → Bytes) (vec : SharedVector) (st : Store Obj) (b : BatchClient (Store Obj))
      (rs : List J.Value)
      → b.requests ≡ some rs
      → AllThere st vec
      → (b' : BatchClient (Store Obj)) × (get_async P ms file uuid vec st b ≡ some (ok b'))
  unfolding get_async
  get_async-returns uuid [] st b rs e t = (b, refl)
  get_async-returns uuid (p ∷ vec) st b rs e ((o, x), t) =
      let sid = call_id P ms (uuid 0) o in
      let jreq = request sid (codes "object.repr.get") (address P ms (P.id o)) in
      let b1 : BatchClient (Store Obj) = record b {
        handlers = put sid (batch_get_handler P ms file p) b.handlers;
        requests = some (rs ++ jreq ∷ []);
      } in
      let round = pushed (uuid 0) o p b rs e in
      let (b', more) = get_async-returns (λ k. uuid (suc k)) vec st b1 (rs ++ jreq ∷ []) refl t in
      (b', ground (arith, x, round, more))

  -- A batch is built for a vector of objects that are there, and the responses to it reach the
  -- objects place by place, also where an object stands in the vector twice or is gone by then; where
  -- one of them throws, the objects behind it stay as they were. No id is drawn twice, and the
  -- responses are single and carry the ids of the requests in their order.
  pub get_async-dispatch :
      (uuid : ℕ → Bytes) (vec : SharedVector) (st st' : Store Obj) (vs : List J.Value)
      → AllThere st vec
      → Different (call_ids uuid vec st)
      → Answered (call_ids uuid vec st) vs
      → (b : BatchClient (Store Obj)) × (get_async P ms file uuid vec st (empty_batch P ms file)
          ≡ some (ok b))
        × (dispatch b.handlers vs st' ≡ each_gets vec vs st')
  get_async-dispatch uuid vec st st' vs t n a =
      let empty = empty_batch P ms file in
      let (b, built) = get_async-returns uuid vec st empty [] refl t in
      (
        b,
        built,
        Found-dispatch b.handlers (call_ids uuid vec st) vec vs st'
            (get_async-Found uuid vec st empty b [] refl n built).0 a,
      )
