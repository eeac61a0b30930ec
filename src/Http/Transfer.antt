-- ===== src/Http/Transfer.antt =====
-- Bodies that are moved in pieces arrive whole, whatever the pieces are.
use libinv.Prelude.{
  ℕ, zero, suc, ◌+◌, ◌<◌, ◌≡◌, refl, sym, ◌∙◌, ap, Bool, true, false, List, [], ◌∷◌, ◌++◌, Bytes,
  codes, none, some, ltb, list_eqb, length, nat_ord, arith, append_nil, length-append, inl, inr,
  Bool-cases,
}
use mathlib.Core.List.{append_assoc}
use libinv.Exec.{ok}
use libinv.Http.{
  take, drop, bytes, end_of_stream, response_reader, HttpServerSession, rpc_handler, Outcome,
  aborted, accepted, pushed, read_cb, received, write_cb, call, construct, upload_read_cb,
}

-- What the reader gives, piece after piece, to a daemon that asks for at most so many bytes each
-- time, until the end of the stream; and whether that was reached.
abbrev pub read_all : Bytes → List ℕ → ℕ → Bytes × Bool
read_all response [] pos = ([], false)
read_all response (max ∷ maxes) pos = elim (response_reader response pos max) [
  | end_of_stream ↦ ([], true)
  | bytes piece ↦
      let more = read_all response maxes (pos + length piece) in (piece ++ more.0, more.1)
]

-- Every piece asked for has room.
abbrev pub Positive : List ℕ → Type 0
Positive [] = Unit
Positive (n ∷ ns) = (0 < n) × Positive ns

take-drop : (n : ℕ) (s : Bytes) → take n s ++ drop n s ≡ s
unfolding take drop
take-drop zero s = refl
take-drop (suc n) [] = refl
take-drop (suc n) (x ∷ s) = rw (take-drop n s)

drop-drop : (n m : ℕ) (s : Bytes) → drop n (drop m s) ≡ drop (m + n) s
unfolding drop
drop-drop n zero s = let e : 0 + n ≡ n = omega arith in rw e
drop-drop zero (suc m) [] = let e : suc m + 0 ≡ suc m = omega arith in rw e
drop-drop (suc n) (suc m) [] = let e : suc m + suc n ≡ suc (m + suc n) = omega arith in rw e
drop-drop n (suc m) (x ∷ s) =
    let e : suc m + n ≡ suc (m + n) = omega arith in rw e (drop-drop n m s)

drop-taken : (n : ℕ) (s : Bytes) → drop (length (take n s)) s ≡ drop n s
unfolding drop take
drop-taken zero s = refl
drop-taken (suc n) [] = refl
drop-taken (suc n) (x ∷ s) = drop-taken n s

drop_all : (n : ℕ) (s : Bytes) → ltb n (length s) ≡ false → drop n s ≡ []
unfolding drop
drop_all zero [] h = refl
drop_all zero (x ∷ s) h = ground (arith, h)
drop_all (suc n) [] h = refl
drop_all (suc n) (x ∷ s) h = drop_all n s (ground (arith, h))

length-drop : (n : ℕ) (s : Bytes) → ltb n (length s) ≡ true → n + length (drop n s) ≡ length s
unfolding drop
length-drop zero s h = omega arith
length-drop (suc n) [] h = ground (arith, h)
length-drop (suc n) (x ∷ s) h = omega (arith, length-drop n s (ground (arith, h)))

taken_some : (n : ℕ) (s : Bytes) → 0 < n → 0 < length s → 0 < length (take n s)
unfolding take
taken_some zero s p q = omega (arith, p)
taken_some (suc n) [] p q = omega (arith, q)
taken_some (suc n) (x ∷ s) p q = omega arith

taken_first : (s t : Bytes) → take (length s) (s ++ t) ≡ s
unfolding take
taken_first [] t = refl
taken_first (x ∷ s) t = rw (taken_first s t)

dropped_first : (s t : Bytes) → drop (length s) (s ++ t) ≡ t
unfolding drop
dropped_first [] t = refl
dropped_first (x ∷ s) t = dropped_first s t

length_parts : (n : ℕ) (s : Bytes) → length (take n s) + length (drop n s) ≡ length s
length_parts n s = sym (length-append (take n s) (drop n s)) ∙ ap length (take-drop n s)

read_from :
    (response : Bytes) (maxes : List ℕ) (pos : ℕ)
    → Positive maxes
    → length (drop pos response) < length maxes
    → read_all response maxes pos ≡ (drop pos response, true)
unfolding response_reader
read_from response [] pos p h = absurd (omega (arith, h))
read_from response (max ∷ maxes) pos p h = elim (Bool-cases (ltb pos (length response))) [
  | inl e ↦
      let rest = drop pos response in
      let piece = take max rest in
      let some_left : 0 < length rest = ground (arith, length-drop pos response e, e) in
      let moved : drop (pos + length piece) response ≡ drop max rest =
        sym (drop-drop (length piece) pos response) ∙ drop-taken max rest in
      let less : length (drop (pos + length piece) response) < length maxes =
        omega
          (arith, ap length moved, length_parts max rest, taken_some max rest p.0 some_left, h) in
      let more = read_from response maxes (pos + length piece) p.1 less in
      ground (arith, e, p.0, more, moved, take-drop max rest)
  | inr e ↦ ground (arith, e, p.0, drop_all pos response e)
]

-- A daemon that asks for a piece with room again and again reads the whole response, each byte
-- once, and then the end of the stream, at the latest at the request after as many as the response
-- has bytes.
pub response_read_whole :
    (response : Bytes) (maxes : List ℕ)
    → Positive maxes
    → length response < length maxes
    → read_all response maxes 0 ≡ (response, true)
unfolding drop
response_read_whole response maxes p h = read_from response maxes 0 p h

-- The calls of the handler for the pieces of a body that is posted, and the last call without data.
abbrev pub post_all : List Bytes → HttpServerSession → Outcome
post_all [] s = rpc_handler (codes "POST") [] s
post_all (piece ∷ pieces) s = elim (rpc_handler (codes "POST") piece s) [
  | aborted ↦ aborted
  | accepted t ↦ post_all pieces t
  | pushed text t ↦ pushed text t
]

-- No piece is empty.
abbrev pub Full : List Bytes → Type 0
Full [] = Unit
Full (p ∷ ps) = (0 < length p) × Full ps

abbrev pub joined : List Bytes → Bytes
joined [] = []
joined (p ∷ ps) = p ++ joined ps

posted_from :
    (pieces : List Bytes) (s : HttpServerSession)
    → Full pieces
    → post_all pieces s
      ≡ pushed
          (s.request ++ joined pieces)
          (record s { request = s.request ++ joined pieces; suspended = true })
unfolding rpc_handler list_eqb
posted_from [] s f = rw (append_nil s.request)
posted_from ([] ∷ pieces) s f = absurd (omega (arith, f.0))
posted_from ((x ∷ p) ∷ pieces) s f = rw (
  posted_from pieces (record s { request = s.request ++ x ∷ p }) f.1,
  append_assoc s.request (x ∷ p) (joined pieces),
)

received_from :
    (pieces : List Bytes) (buffer : Bytes) → received pieces buffer ≡ buffer ++ joined pieces
unfolding received write_cb
received_from [] buffer = rw (append_nil buffer)
received_from (p ∷ pieces) buffer =
    received_from pieces (buffer ++ p) ∙ append_assoc buffer p (joined pieces)

-- A request that a client posts in pieces, none of them empty, reaches the work queue as it was, and
-- the connection is suspended until the reply; a reply that is sent in pieces is what the client's
-- call returns.
pub bodies_arrive :
    (pieces replies : List Bytes) (handle : Bytes)
    → Full pieces
    → (post_all pieces (construct handle)
        ≡ pushed
            (joined pieces)
            (record (construct handle) { request = joined pieces; suspended = true }))
      × (call none replies ≡ ok (joined replies))
unfolding call construct
bodies_arrive pieces replies handle f =
    (posted_from pieces (construct handle) f, ap ok (received_from replies []))

-- A file longer than what curl asks for is not uploaded: every call of the read callback gives the
-- same first bytes of it, and none those behind.
pub upload_repeats :
    (n x : ℕ) (first rest : Bytes)
    → length first ≡ n
    → (upload_read_cb n (first ++ x ∷ rest) ≡ some first)
      × (read_cb n (first ++ x ∷ rest) ≡ (first, x ∷ rest))
unfolding upload_read_cb read_cb
upload_repeats n x first rest h = (
  ground (arith, h, length-append first (x ∷ rest), taken_first first (x ∷ rest)),
  ground (arith, h, taken_first first (x ∷ rest), dropped_first first (x ∷ rest)),
)
