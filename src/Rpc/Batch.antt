-- ===== src/Rpc/Batch.antt =====
-- The answers to a batch: which requests are answered, and in which order.
use mathlib.Core.List.{append-nil, append_assoc}
use libinv.Prelude.{
  ◌≡◌, refl, ap, sym, subst, ◌∙◌, false, List, [], ◌∷◌, ◌++◌, Bytes, codes, Option, none, some,
  arith, lookup, list_eqb, nat_ord, list_ord, inl, inr, ◌⊎◌,
}
use libinv.Exception.{Class, base, aborted, invalid_repr}
use libinv.Exec.{ok, err}
use libinv.Extern.Boost.{Boost}
use libinv.Extern.Json.{Json}
use libinv.JsonRpc.{version, assign_result, assign_exception, error_object, push_back}
use libinv.Rpc.{Handler, complete_call, complete_single, complete_batch, answer, namespaces}

module _ ⦃J : Json⦄ where
  -- The ids of responses.
  unfoldable pub ids : List J.Value → List (Option J.Value)
  ids [] = []
  ids (r ∷ rs) = J.find_member r (codes "id") ∷ ids rs

  ids-append : (rs ss : List J.Value) → ids (rs ++ ss) ≡ ids rs ++ ids ss
  unfolding ids
  ids-append [] ss = refl
  ids-append (r ∷ rs) ss = rw (ids-append rs ss)

  push_null : (rs : List J.Value) → push_back J.null rs ≡ err aborted
  unfolding push_back
  push_null rs = rw J.is_object-null

  -- A response with members is put behind the ones before it.
  abbrev Pushed : J.Value → List J.Value → J.Value → Type 0
  Pushed r rs id =
      (out : List J.Value) × (push_back r rs ≡ ok out) × (ids out ≡ ids rs ++ some id ∷ [])

  push_object :
      (m : Bytes × J.Value) (ms : List (Bytes × J.Value)) (rs : List J.Value) (id : J.Value)
      → lookup (codes "id") (m ∷ ms) ≡ some id
      → Pushed (J.object (m ∷ ms)) rs id
  unfolding push_back ids
  push_object m ms rs id h = (
    rs ++ J.object (m ∷ ms) ∷ [],
    ground (arith, J.is_object-object (m ∷ ms), J.members-object (m ∷ ms)),
    ids-append rs (J.object (m ∷ ms) ∷ [])
        ∙ ground (arith, h, J.find_member-object (m ∷ ms) (codes "id")),
  )

  -- The answer to a request with an id carries this id.
  result_ids :
      (q v id : J.Value) (rs : List J.Value)
      → J.find_member q (codes "id") ≡ some id
      → J.is_null v ≡ false
      → Pushed (assign_result q v) rs id
  unfolding assign_result lookup list_eqb
  result_ids q v id rs e h =
      let ms : List (Bytes × J.Value) = (codes "id", id) ∷ (codes "result", v) ∷ [] in
      let same : assign_result q v ≡ J.object ((codes "jsonrpc", J.text version) ∷ ms) =
        ground arith in
      subst (λ r. Pushed r rs id) (sym same)
        (push_object (codes "jsonrpc", J.text version) ms rs id refl)

  exception_ids :
      (q id : J.Value) (c : Class) (message : Bytes) (rs : List J.Value)
      → J.find_member q (codes "id") ≡ some id
      → Pushed (assign_exception q c message) rs id
  unfolding assign_exception lookup list_eqb
  exception_ids q id c message rs e =
      let ms : List (Bytes × J.Value) =
        (codes "id", id) ∷ (codes "error", error_object c message) ∷ [] in
      let same : assign_exception q c message ≡ J.object ((codes "jsonrpc", J.text version) ∷ ms) =
        ground arith in
      subst (λ r. Pushed r rs id) (sym same)
        (push_object (codes "jsonrpc", J.text version) ms rs id refl)

  -- A notification, and a result that is null, have the null value for a response.
  notified :
      (q v : J.Value) (c : Class) (message : Bytes)
      → J.find_member q (codes "id") ≡ none
      → (assign_result q v ≡ J.null) × (assign_exception q c message ≡ J.null)
  unfolding assign_result assign_exception
  notified q v c message e = (ground arith, ground arith)

module _ ⦃B : Boost⦄ ⦃J : Json⦄ {Db : Type 0} (types : List (Bytes × Handler Db)) where
  -- On every database, the call of a request gives a value that is not null, or throws an exception
  -- that has an error code.
  abbrev pub Answers : J.Value → Type 0
  Answers q =
      (d : Db)
      → ((v : J.Value) × ((complete_call types (namespaces q) q d).0 ≡ ok v)
          × (J.is_null v ≡ false))
        ⊎ ((c : Class) × (s : Bytes) × ((complete_call types (namespaces q) q d).0
              ≡ err (base c s)))

  -- The ids of requests that all have one and are all answered.
  abbrev pub AllAnswer : List J.Value → List J.Value → Type 0
  AllAnswer [] [] = Unit
  AllAnswer [] (id ∷ is) = ⊥
  AllAnswer (q ∷ qs) [] = ⊥
  AllAnswer (q ∷ qs) (id ∷ is) =
      (J.find_member q (codes "id") ≡ some id) × Answers q × AllAnswer qs is

  abbrev pub somes : List J.Value → List (Option J.Value)
  somes [] = []
  somes (id ∷ is) = some id ∷ somes is

  -- A call is answered, and the answer adds the request's id.
  abbrev Answered : J.Value → J.Value → Db → List J.Value → Type 0
  Answered q id d rs = (r : J.Value) × ((complete_single types q d).0 ≡ ok r) × Pushed r rs id

  single_ids :
      (q id : J.Value) (d : Db) (rs : List J.Value)
      → J.find_member q (codes "id") ≡ some id
      → Answers q
      → Answered q id d rs
  unfolding complete_single answer
  single_ids q id d rs i n = elim (n d) [
    | inl (v, e, full) ↦ (assign_result q v, ground arith, result_ids q v id rs i full)
    | inr (c, s, e) ↦ (assign_exception q c s, ground arith, exception_ids q id c s rs i)
  ]

  -- The rest of a batch after a request that is answered.
  single_round :
      (q id : J.Value) (qs rs : List J.Value) (d : Db)
      → J.find_member q (codes "id") ≡ some id
      → Answers q
      → (out : List J.Value) × (ids out ≡ ids rs ++ some id ∷ [])
        × (complete_batch types (q ∷ qs) rs d
            ≡ complete_batch types qs out (complete_single types q d).1)
  unfolding complete_batch
  single_round q id qs rs d i n =
      let (r, e, p) = single_ids q id d rs i n in (p.0, p.2, ground (arith, e, p.1))

  -- What has been answered when the rest of a batch is reached.
  batch_rounds :
      (qs is behind rs : List J.Value) (d : Db)
      → AllAnswer qs is
      → (out : List J.Value) × (s : Db) × (ids out ≡ ids rs ++ somes is)
        × (complete_batch types (qs ++ behind) rs d ≡ complete_batch types behind out s)
  batch_rounds [] [] behind rs d a = (rs, d, sym (append-nil (ids rs)), refl)
  batch_rounds [] (id ∷ is) behind rs d a = absurd a
  batch_rounds (q ∷ qs) [] behind rs d a = absurd a
  batch_rounds (q ∷ qs) (id ∷ is) behind rs d a =
      let (mid, added, round) = single_round q id (qs ++ behind) rs d a.0 a.1 in
      let (out, s, all, rest) = batch_rounds qs is behind mid (complete_single types q d).1 a.2 in
      (
        out,
        s,
        all ∙ ap (λ t. t ++ somes is) added ∙ append_assoc (ids rs) (some id ∷ []) (somes is),
        round ∙ rest,
      )

  aborts :
      (q : J.Value) (qs rs : List J.Value) (d : Db)
      → J.find_member q (codes "id") ≡ none
      → Answers q
      → (complete_batch types (q ∷ qs) rs d).0 ≡ err aborted
  unfolding complete_batch complete_single answer
  aborts q qs rs d i n = elim (n d) [
    | inl (v, e, full) ↦ ground (arith, e, push_null rs, notified q v invalid_repr [] i)
    | inr (c, s, e) ↦ ground (arith, e, push_null rs, notified q J.null c s i)
  ]

  -- A batch of requests that all have an id is answered, with one response for each request, with
  -- its id and in the order of the requests; where a notification stands behind such requests, the
  -- program ends by a failed assertion, whatever follows it. The call of each of these requests, and
  -- that of the notification, gives a value that is not null or throws an exception with an error
  -- code.
  pub complete_batch-ids :
      (requests is behind : List J.Value) (notification : J.Value) (d : Db)
      → AllAnswer requests is
      → J.find_member notification (codes "id") ≡ none
      → Answers notification
      → ((out : List J.Value) × ((complete_batch types requests [] d).0 ≡ ok out)
          × (ids out ≡ somes is))
        × ((complete_batch types (requests ++ notification ∷ behind) [] d).0 ≡ err aborted)
  unfolding ids complete_batch
  complete_batch-ids requests is behind notification d a i n =
      let (out, s, all, done) = batch_rounds requests is [] [] d a in
      let (mid, t, before, rest) = batch_rounds requests is (notification ∷ behind) [] d a in
      (
        (
          out,
          ap (λ qs. (complete_batch types qs [] d).0) (sym (append-nil requests))
              ∙ ap (λ r. r.0) done,
          all,
        ),
        ap (λ r. r.0) rest ∙ aborts notification behind mid t i n,
      )
