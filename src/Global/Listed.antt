-- ===== src/Global/Listed.antt =====
-- The index record of a type is a set of paths: what a commit adds to it and takes from it, and what
-- a client reads from it.
use libinv.Prelude.{
  ◌≡◌, refl, Bool, true, false, not, List, [], ◌∷◌, ◌++◌, Bytes, codes, some, map, contains, erase,
  erase-absent, contains-erase, list_eqb, list_eqb_iff, nat_ord, list_ord, if◌then◌else◌, arith,
  inl, inr, Bool-cases,
}
use libinv.Exec.{ok}
use libinv.Extern.Boost.{Boost}
use libinv.Extern.Json.{Json, IsPrinted, Unended, texts}
use libinv.Extern.Kyoto.{Kyoto, IsReliable}
use libinv.Key.{index_separator, parse}
use libinv.Index.{Ident, path_string}
use libinv.Exception.{invalid_repr}
use libinv.JsonRpc.{assign_result}
use libinv.JsonRpc.Reply.{assign_result-object, response_read, check_batch, parsed_value}
use libinv.Global.{
  Global, commit, updated, lists, erase_first, get_index, put_index, rpc_index, global_index,
  index_keys,
}

-- No path is in the list twice.
abbrev pub Distinct : List Bytes → Type 0
Distinct [] = Unit
Distinct (p ∷ ps) = (contains p ps ≡ false) × Distinct ps

module _ ⦃J : Json⦄ ⦃K : Kyoto⦄ where
  -- The index record of the type lists the paths, each once; the paths hold no NUL.
  pub record Lists (type : Bytes) (d : K.Db) (ps : List Bytes) : Type 0 where
    pub index-array : get_index type d ≡ J.array (texts ps)
    pub distinct : Distinct ps
    pub unended : Unended ps

contains-one :
    (j p : Bytes) (ps : List Bytes)
    → contains j (ps ++ p ∷ []) ≡ (if list_eqb p j then true else contains j ps)
unfolding contains
contains-one j p [] = ground arith
contains-one j p (q ∷ ps) = ground (arith, contains-one j p ps)

Distinct-one :
    (p : Bytes) (ps : List Bytes) → contains p ps ≡ false → Distinct ps → Distinct (ps ++ p ∷ [])
unfolding contains
Distinct-one p [] h s = (refl, tt)
Distinct-one p (q ∷ ps) h s = (
  ground (arith, contains-one q p ps, s.0, h, list_eqb_iff q p, list_eqb_iff p q),
  Distinct-one p ps (ground (arith, h)) s.1,
)

Distinct-erase : (p : Bytes) (ps : List Bytes) → Distinct ps → Distinct (erase p ps)
unfolding erase
Distinct-erase p [] s = tt
Distinct-erase p (q ∷ ps) s = ground (arith, Distinct-erase p ps s.1, contains-erase p q ps, s.0)

Unended-one :
    (p : Bytes) (ps : List Bytes) → contains 0 p ≡ false → Unended ps → Unended (ps ++ p ∷ [])
Unended-one p [] h u = (h, tt)
Unended-one p (q ∷ ps) h u = (u.0, Unended-one p ps h u.1)

Unended-erase : (p : Bytes) (ps : List Bytes) → Unended ps → Unended (erase p ps)
unfolding erase
Unended-erase p [] u = tt
Unended-erase p (q ∷ ps) u = ground (arith, Unended-erase p ps u.1, u.0)

-- The paths that a commit lists.
abbrev pub listed_after : Bool → Bytes → List Bytes → List Bytes
listed_after true p ps = erase p ps
listed_after false p ps = if contains p ps then ps else ps ++ p ∷ []

listed_after-contains :
    (b : Bool) (p j : Bytes) (ps : List Bytes)
    → contains j (listed_after b p ps) ≡ (if list_eqb p j then not b else contains j ps)
listed_after-contains true p j ps = contains-erase p j ps
listed_after-contains false p j ps = ground (arith, contains-one j p ps, list_eqb_iff p j)

listed_after-Distinct :
    (b : Bool) (p : Bytes) (ps : List Bytes) → Distinct ps → Distinct (listed_after b p ps)
listed_after-Distinct true p ps s = Distinct-erase p ps s
listed_after-Distinct false p ps s = elim (Bool-cases (contains p ps)) [
  | inl e ↦ rw e s
  | inr e ↦ rw e (Distinct-one p ps e s)
]

listed_after-Unended :
    (b : Bool) (p : Bytes) (ps : List Bytes)
    → contains 0 p ≡ false
    → Unended ps
    → Unended (listed_after b p ps)
listed_after-Unended true p ps h u = Unended-erase p ps u
listed_after-Unended false p ps h u = elim (Bool-cases (contains p ps)) [
  | inl e ↦ rw e u
  | inr e ↦ rw e (Unended-one p ps h u)
]

module _ ⦃J : Json⦄ where
  lists-texts : (p : Bytes) (ps : List Bytes) → lists p (texts ps) ≡ contains p ps
  unfolding lists contains
  lists-texts p [] = refl
  lists-texts p (q ∷ ps) = ground (arith, J.get_text-text q, lists-texts p ps)

  erase_first-texts :
      (p : Bytes) (ps : List Bytes) → Distinct ps → erase_first p (texts ps) ≡ texts (erase p ps)
  unfolding erase_first erase
  erase_first-texts p [] s = refl
  erase_first-texts p (q ∷ ps) s = ground (
    arith,
    J.get_text-text q,
    erase_first-texts p ps s.1,
    list_eqb_iff q p,
    erase-absent p ps,
    s.0,
  )

  texts-one : (p : Bytes) (ps : List Bytes) → texts ps ++ J.text p ∷ [] ≡ texts (ps ++ p ∷ [])
  texts-one p [] = refl
  texts-one p (q ∷ ps) = rw (texts-one p ps)

  updated-texts :
      (b : Bool) (p : Bytes) (ps : List Bytes)
      → Distinct ps
      → updated b p (J.array (texts ps)) ≡ J.array (texts (listed_after b p ps))
  unfolding updated
  updated-texts true p ps s = ground (
    arith,
    J.elements-array (texts ps),
    lists-texts p ps,
    erase_first-texts p ps s,
    erase-absent p ps,
  )
  updated-texts false p ps s =
      ground (arith, J.elements-array (texts ps), lists-texts p ps, texts-one p ps)

module _ ⦃B : Boost⦄ ⦃J : Json⦄ ⦃K : Kyoto⦄ where
  -- A commit keeps the index record of a type a set of paths, in which the object's own path is
  -- afterwards exactly where it was not cleared, and every other path where it was before. On a
  -- database that meets no error, with a writer whose text is parsed to the array it wrote, for a
  -- path without a NUL.
  pub commit-Lists :
      (i : Ident) (g : Global) (d : K.Db) (ps : List Bytes) (j : Bytes)
      → IsReliable K
      → IsPrinted J
      → contains 0 (path_string i) ≡ false
      → Lists i.type d ps
      → Lists i.type (commit i g d) (listed_after g.clear_flag (path_string i) ps)
        × (contains j (listed_after g.clear_flag (path_string i) ps)
            ≡ (if list_eqb (path_string i) j then not g.clear_flag else contains j ps))
  unfolding commit put_index parsed_value get_index
  commit-Lists i g d ps j r w h l =
      let p = path_string i in
      let after = listed_after g.clear_flag p ps in
      let u = listed_after-Unended g.clear_flag p ps h l.unended in
      let text = J.print (J.array (texts after)) in
      (
        record {
          index-array = ground (
            arith,
            l.index-array,
            updated-texts g.clear_flag p ps l.distinct,
            K.find-set d i.type text i.type (r.set_succeeds d i.type text),
            list_eqb_iff i.type i.type,
            w.parse-print after u,
          );
          distinct = listed_after-Distinct g.clear_flag p ps l.distinct;
          unended = u;
        },
        listed_after-contains g.clear_flag p j ps,
      )

  index_keys-texts : (ps : List Bytes) → index_keys (texts ps) ≡ map (parse index_separator) ps
  unfolding index_keys
  index_keys-texts [] = refl
  index_keys-texts (p ∷ ps) = rw (J.get_text-text p, index_keys-texts ps)

  -- A client that asks with an id for the objects of a type is given the keys of the paths that the
  -- index record lists, in their order.
  pub global_index-rpc_index :
      (file : Bytes) (request id : J.Value) (type : Bytes) (d : K.Db) (ps : List Bytes)
      → J.find_member request (codes "id") ≡ some id
      → Lists type d ps
      → global_index file (assign_result request (rpc_index type d))
        ≡ ok (map (parse index_separator) ps)
  unfolding global_index rpc_index check_batch
  global_index-rpc_index file request id type d ps h l =
      let read =
        response_read file request id (J.array (texts ps)) invalid_repr [] h
          (J.is_null-array (texts ps)) in
      let single =
        assign_result-object request id (J.array (texts ps)) h (J.is_null-array (texts ps)) in
      ground (
        arith,
        l.index-array,
        single,
        read.1,
        read.2,
        J.elements-array (texts ps),
        index_keys-texts ps,
      )
