-- ===== src/Workqueue.antt =====
-- source/include/workqueue.hh: the queue of work, the workers that take from it, and the stop. A
-- handler is not looked into: an entry is work with what the handler does for it. A worker moves
-- between checks: each step below is what one thread does while it holds one lock, or a test that
-- needs none.
pub mod Runs
pub mod Workers
use libinv.Prelude.{ℕ, zero, suc, ◌≡◌, Bool, true, false, List, [], ◌∷◌, ◌++◌, Option, none, some}

-- Where a worker stands in worker_impl's loop.
pub data Phase (Work : Type 0) : Type 0 where
  checking : Phase Work
  waiting : Phase Work
  running : Work → Phase Work
  ended : Phase Work

pub record Workqueue (Work : Type 0) : Type 0 where
  pub wq : List Work
  pub workers : List (Phase Work)
  pub stop : Bool

-- What a step shows: work that enters the queue, that leaves it, or that was handled.
pub data Event (Work : Type 0) : Type 0 where
  pushed popped handled : Work → Event Work
  silent : Event Work

module _ {Work : Type 0} where
  -- launch_worker_threads(num), by the constructor
  unfoldable pub launch : ℕ → List (Phase Work)
  launch zero = []
  launch (suc num) = checking ∷ launch num

  unfoldable pub construct : ℕ → Workqueue Work
  construct num = record { wq = []; workers = launch num; stop = false }

  unfoldable pub push : Work → Workqueue Work → Workqueue Work
  push work q = record q { wq = q.wq ++ work ∷ [] }

  -- pop(), with WorkqueueEmpty as `none`
  unfoldable pub pop_from : List Work → Workqueue Work → Option (Work × Workqueue Work)
  pop_from [] q = none
  pop_from (w ∷ ws) q = some (w, record q { wq = ws })

  unfoldable pub pop : Workqueue Work → Option (Work × Workqueue Work)
  unfolding pop_from
  pop q = pop_from q.wq q

  -- One worker of the list goes from one phase to another.
  pub data Moves (p q : Phase Work) : List (Phase Work) → List (Phase Work) → Type 0 where
    here : (ps : List (Phase Work)) → Moves p q (p ∷ ps) (q ∷ ps)
    there :
        (o : Phase Work) {ps qs : List (Phase Work)} → Moves p q ps qs → Moves p q (o ∷ ps) (o ∷ qs)

  pub data Step : Workqueue Work → Event Work → Workqueue Work → Type 0 where
    pushes : (w : Work) (q : Workqueue Work) → Step q (pushed w) (push w q)
    -- stop_worker_threads: m_stop = true, and notify_all, which makes no phase change by itself
    stops : (q : Workqueue Work) → Step q silent (record q { stop = true })
    -- if (m_stop) break;
    breaks :
        (q : Workqueue Work) (ps : List (Phase Work))
        → q.stop ≡ true
        → Moves checking ended q.workers ps
        → Step q silent (record q { workers = ps })
    waits :
        (q : Workqueue Work) (ps : List (Phase Work))
        → q.stop ≡ false
        → Moves checking waiting q.workers ps
        → Step q silent (record q { workers = ps })
    -- after the wait, notified or not: entry = pop()
    takes :
        (q r : Workqueue Work) (w : Work) (ps : List (Phase Work))
        → pop q ≡ some (w, r)
        → Moves waiting (running w) q.workers ps
        → Step q (popped w) (record r { workers = ps })
    -- WorkqueueEmpty: continue
    continues :
        (q : Workqueue Work) (ps : List (Phase Work))
        → pop q ≡ none
        → Moves waiting checking q.workers ps
        → Step q silent (record q { workers = ps })
    -- entry.handler(*entry.work) returns
    finishes :
        (q : Workqueue Work) (w : Work) (ps : List (Phase Work))
        → Moves (running w) checking q.workers ps
        → Step q (handled w) (record q { workers = ps })

  -- A sequence of steps with its events.
  pub data Run : Workqueue Work → List (Event Work) → Workqueue Work → Type 0 where
    done : (q : Workqueue Work) → Run q [] q
    next :
        {q r s : Workqueue Work} {e : Event Work} {es : List (Event Work)}
        → Step q e r
        → Run r es s
        → Run q (e ∷ es) s
