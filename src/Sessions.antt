-- ===== src/Sessions.antt =====
-- The lists of sessions of source/rpc.cc, source/include/rpc.hh, source/http_server.cc and
-- source/http_client.cc. A std::shared_ptr is the session's number, or `none` where it is empty.
use libinv.Prelude.{
  ℕ, suc, ◌+◌, ◌≡◌, refl, Bool, false, List, [], ◌∷◌, ◌++◌, Option, none, some, ◌==◌, length,
  length-append, if◌then◌else◌, arith,
}

-- session == iter.get()
abbrev pub is_session : ℕ → Option ℕ → Bool
is_session session none = false
is_session session (some s) = s == session

-- The elements that std::remove_if keeps, in front and in their order, and how many it does not.
unfoldable pub kept : ℕ → List (Option ℕ) → List (Option ℕ)
kept session [] = []
kept session (s ∷ ss) =
    let rest = kept session ss in if is_session session s then rest else s ∷ rest

unfoldable pub dropped : ℕ → List (Option ℕ) → ℕ
dropped session [] = 0
dropped session (s ∷ ss) =
    let rest = dropped session ss in if is_session session s then suc rest else rest

-- What std::remove_if leaves behind the elements that it keeps: as many elements as it dropped,
-- of unspecified value.
pub record Leftover : Type 0 where
  pub left : List (Option ℕ) → ℕ → List (Option ℕ)
  pub length-left : (ss : List (Option ℕ)) (n : ℕ) → length (left ss n) ≡ n

module _ (L : Leftover) where
  -- Client::remove_session and Server::remove_session: nothing is erased
  unfoldable pub remove_session : ℕ → List (Option ℕ) → List (Option ℕ)
  unfolding kept dropped
  remove_session session ss = kept session ss ++ L.left ss (dropped session ss)

-- ClientSession and ServerSession, by the client or server that they point to: nullptr is `none`.
pub record Session : Type 0 where
  pub number : ℕ
  pub owner : Option ℕ

module _ (L : Leftover) where
  -- terminate(); without an owner the call goes through a null pointer, which is `none`
  unfoldable pub terminate : Session → List (Option ℕ) → Option (Session × List (Option ℕ))
  unfolding remove_session
  terminate s ss = elim s.owner [
    | none ↦ none
    | some o ↦ some (record s { owner = none }, remove_session L s.number ss)
  ]

-- HTTPServer::create_session and HTTPClient::create_session: m_sessions.push_back(session)
unfoldable pub create_session : ℕ → List (Option ℕ) → List (Option ℕ)
create_session session ss = ss ++ some session ∷ []

-- A session of a server comes or goes.
pub data Event : Type 0 where
  comes goes : ℕ → Event

module _ (L : Leftover) where
  abbrev pub after : List Event → List (Option ℕ) → List (Option ℕ)
  after [] ss = ss
  after (comes n ∷ es) ss = after es (create_session n ss)
  after (goes n ∷ es) ss = after es (remove_session L n ss)

-- How many sessions came.
abbrev pub arrivals : List Event → ℕ
arrivals [] = 0
arrivals (comes n ∷ es) = suc (arrivals es)
arrivals (goes n ∷ es) = arrivals es

kept-dropped :
    (session : ℕ) (ss : List (Option ℕ)) → length (kept session ss) + dropped session ss ≡ length ss
unfolding kept dropped
kept-dropped session [] = refl
kept-dropped session (s ∷ ss) = ground (arith, kept-dropped session ss)

module _ (L : Leftover) where
  length-remove_session :
      (session : ℕ) (ss : List (Option ℕ)) → length (remove_session L session ss) ≡ length ss
  unfolding remove_session
  length-remove_session session ss = omega (
    arith,
    length-append (kept session ss) (L.left ss (dropped session ss)),
    L.length-left ss (dropped session ss),
    kept-dropped session ss,
  )

  -- The list of sessions never gets shorter: whichever sessions come and go, and in which order, it
  -- is as long as the number of those that came.
  pub length-after :
      (es : List Event) (ss : List (Option ℕ)) → length (after L es ss) ≡ arrivals es + length ss
  unfolding create_session
  length-after [] ss = omega arith
  length-after (comes n ∷ es) ss =
      omega (arith, length-after es (create_session n ss), length-append ss (some n ∷ []))
  length-after (goes n ∷ es) ss =
      omega (arith, length-after es (remove_session L n ss), length-remove_session n ss)
