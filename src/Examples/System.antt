-- ===== src/Examples/System.antt =====
-- The theorems on global objects, files, sessions and bodies, at concrete inputs.
use libinv.Prelude.{
  ℕ, zero, suc, ◌+◌, ◌≤◌, ◌≡◌, refl, true, false, List, [], ◌∷◌, codes, Option, none, some, nat_ord,
  list_ord, contains, list_eqb, lookup, length, arith,
}
use libinv.Exec.{ok, err}
use libinv.Exception.{runtime_error}
use libinv.Extern.Concrete.Tokenizer.{tokenizer}
use libinv.Extern.Concrete.TreeDb.{tree_db, empty_db, tree_db-IsReliable}
use libinv.Extern.Concrete.Document.{document, document-IsPrinted}
use libinv.Index.{path_string}
use libinv.Global
use libinv.Global.{clear}
use libinv.Global.Listed.{Lists, commit-Lists, listed_after}
use libinv.FileMap.{System, construct, data_of, unmap, size_of, failed, mmap_failed}
use libinv.FileMap.Balance.{
  reads, renames, perform_all, opens, closes, destroyed-closes, failed_mmap_returned,
}
use libinv.Sessions.{Leftover}
use libinv.Http.{HttpServerSession, pushed, call}
use libinv.Http
use libinv.Http.Transfer.{read_all, response_read_whole, post_all, bodies_arrive}
use libinv.Examples.Data.{left}

nothing_listed : Lists (codes "box") empty_db []
unfolding Global.get_index tree_db lookup empty_db
nothing_listed = record { index-array = refl; distinct = tt; unended = tt }

commit-Lists_example :
    Lists
      (codes "box")
      (Global.commit left Global.fresh empty_db)
      (listed_after false (path_string left) [])
    × (contains (path_string left) (listed_after false (path_string left) []) ≡ true)
unfolding contains path_string tokenizer list_eqb
commit-Lists_example =
    commit-Lists left Global.fresh empty_db [] (path_string left) tree_db-IsReliable
      document-IsPrinted refl nothing_listed

-- A system in which a file can be opened and has ten bytes; mapping fails or gives an address.
abbrev system : Option ℕ → System
system mapped = record {
  open_file = λ calls name. some 3;
  fstat = λ calls fd. some 10;
  mmap = λ calls size fd. mapped;
}

destroyed-closes_example :
    (opens
        (perform_all
          (system (some 4096))
          []
          (reads ∷ renames (codes "b") ∷ reads ∷ [])
          (construct (codes "a"), [])).1
      ≤ closes
          (perform_all
            (system (some 4096))
            []
            (reads ∷ renames (codes "b") ∷ reads ∷ [])
            (construct (codes "a"), [])).1
        + 1)
    × (opens
          (unmap (
            perform_all
              (system (some 4096))
              []
              (reads ∷ renames (codes "b") ∷ reads ∷ [])
              (construct (codes "a"), []))).1
        ≡ closes
            (unmap (
              perform_all
                (system (some 4096))
                []
                (reads ∷ renames (codes "b") ∷ reads ∷ [])
                (construct (codes "a"), []))).1)
destroyed-closes_example =
    destroyed-closes (system (some 4096)) [] (codes "a") (reads ∷ renames (codes "b") ∷ reads ∷ [])
      (λ calls fd. refl)

failed_mmap_returned_example :
    ((data_of (system none) [] (construct (codes "a"), [])).0
      ≡ err (runtime_error (mmap_failed (system none) [])))
    × ((data_of (system none) [] (data_of (system none) [] (construct (codes "a"), [])).1).0
        ≡ ok failed)
    × ((data_of (system none) [] (data_of (system none) [] (construct (codes "a"), [])).1).1
        ≡ (data_of (system none) [] (construct (codes "a"), [])).1)
    × (size_of (data_of (system none) [] (construct (codes "a"), [])).1.0 ≡ 10)
unfolding construct
failed_mmap_returned_example =
    failed_mmap_returned (system none) [] (construct (codes "a")) [] 3 10 refl refl refl refl

abbrev nulls : ℕ → List (Option ℕ)
nulls zero = []
nulls (suc n) = none ∷ nulls n

length-nulls : (n : ℕ) → length (nulls n) ≡ n
length-nulls zero = refl
length-nulls (suc n) = omega (arith, length-nulls n)

-- Elements that were moved from are empty.
abbrev moved : Leftover
moved = record { left = λ ss n. nulls n; length-left = λ ss n. length-nulls n }

response_read_whole_example : read_all (codes "ok") (1 ∷ 5 ∷ 5 ∷ []) 0 ≡ (codes "ok", true)
response_read_whole_example =
    response_read_whole (codes "ok") (1 ∷ 5 ∷ 5 ∷ [])
      (omega arith, (omega arith, (omega arith, tt))) (omega arith)

bodies_arrive_example :
    (post_all (codes "{" ∷ codes "}" ∷ []) (Http.construct (codes "me"))
      ≡ pushed
          (codes "{}")
          (record (Http.construct (codes "me")) { request = codes "{}"; suspended = true }))
    × (call none (codes "o" ∷ codes "k" ∷ []) ≡ ok (codes "ok"))
bodies_arrive_example =
    bodies_arrive (codes "{" ∷ codes "}" ∷ []) (codes "o" ∷ codes "k" ∷ []) (codes "me")
      (omega arith, (omega arith, tt))
