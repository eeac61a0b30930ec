-- ===== src/Examples/Work.antt =====
-- The theorems on the work queue and on the tables of names, at concrete ones.
use libinv.Prelude.{
  ℕ, ◌+◌, ◌≤◌, ◌≡◌, refl, true, false, List, [], ◌∷◌, ◌++◌, Bytes, codes, length, nat_ord, list_ord,
}
use libinv.Workqueue.{
  Workqueue, checking, waiting, running, ended, pop, here, Event, popped, handled, silent, takes,
  finishes, breaks, Run, done, next,
}
use libinv.Workqueue.Runs.{left, entered, left-fifo}
use libinv.Workqueue.Workers.{
  finished, sum, total, in_hand, is_waiting, taken_handled, left-stopped,
}

-- One worker, which waits; two entries are queued.
abbrev busy : Workqueue ℕ
busy = record { wq = 7 ∷ 8 ∷ []; workers = waiting ∷ []; stop = false }

abbrev halted : Workqueue ℕ
halted = record { wq = 7 ∷ 8 ∷ []; workers = waiting ∷ []; stop = true }

abbrev events : List (Event ℕ)
events = popped 7 ∷ handled 7 ∷ silent ∷ []

abbrev queued : List ℕ
queued = 7 ∷ 8 ∷ []

abbrev rest : List ℕ
rest = 8 ∷ []

-- The first entry is taken, the queue is stopped, the entry is handled, and the worker ends.
stopped-Run : Run halted events (record { wq = 8 ∷ []; workers = ended ∷ []; stop = true })
unfolding pop
stopped-Run =
    next
      (takes halted (record { wq = 8 ∷ []; workers = waiting ∷ []; stop = true }) 7 (running 7 ∷ [])
        refl (here []))
      (next (finishes _ 7 (checking ∷ []) (here []))
        (next (breaks _ (ended ∷ []) refl (here [])) (done _)))

left-fifo_example : left events ++ rest ≡ queued
unfolding entered
left-fifo_example = left-fifo stopped-Run

taken_handled_example :
    sum (λ w. w) (left events) + total (in_hand (λ w. w)) (waiting ∷ [])
    ≡ sum (λ w. w) (finished events) + total (in_hand (λ w. w)) (ended ∷ [])
taken_handled_example = taken_handled (λ w. w) stopped-Run

left-stopped_example : length (left events) ≤ total {Work = ℕ} is_waiting (waiting ∷ [])
left-stopped_example = left-stopped stopped-Run refl

abbrev table : List (Bytes × ℕ)
table = (codes "get", 1) ∷ (codes "set", 2) ∷ []
