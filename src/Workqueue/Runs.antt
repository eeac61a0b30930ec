-- ===== src/Workqueue/Runs.antt =====
-- Runs of the work queue: the order of the work, what happens to it, and what a stop leaves.
use mathlib.Core.List.{append_assoc, append-nil}
use libinv.Prelude.{◌≡◌, sym, ◌∙◌, List, [], ◌∷◌, ◌++◌, some, arith}
use libinv.Workqueue.{
  Workqueue, push, pop, pop_from, Event, pushed, popped, pushes, stops, breaks, waits, takes,
  continues, finishes, Run, done, next,
}

module _ {Work : Type 0} where
  -- The work that entered the queue, and that left it, in order.
  unfoldable pub entered : List (Event Work) → List Work
  entered [] = []
  entered (pushed w ∷ es) = w ∷ entered es
  entered (_ ∷ es) = entered es

  unfoldable pub left : List (Event Work) → List Work
  left [] = []
  left (popped w ∷ es) = w ∷ left es
  left (_ ∷ es) = left es

  pop_from-split :
      (ws : List Work) (q r : Workqueue Work) (w : Work)
      → pop_from ws q ≡ some (w, r)
      → (ws ≡ w ∷ r.wq) × (r.stop ≡ q.stop)
  unfolding pop_from
  pop_from-split [] q r w e = cc
  pop_from-split (v ∷ vs) q r w e = (ground arith, ground arith)

  pub pop_split :
      (q r : Workqueue Work) (w : Work)
      → pop q ≡ some (w, r)
      → (q.wq ≡ w ∷ r.wq) × (r.stop ≡ q.stop)
  unfolding pop
  pop_split q r w e = pop_from-split q.wq q r w e

  -- In every run the work leaves the queue in the order in which it entered, none is lost or taken
  -- twice: what left, and then what is queued, is what was queued, and then what entered.
  pub left-fifo :
      {q s : Workqueue Work} {es : List (Event Work)}
      → Run q es s
      → left es ++ s.wq ≡ q.wq ++ entered es
  unfolding left entered push
  left-fifo (done q) = sym (append-nil q.wq)
  left-fifo (next (pushes w q) r) = left-fifo r ∙ append_assoc q.wq (w ∷ []) _
  left-fifo (next (stops q) r) = left-fifo r
  left-fifo (next (breaks q ps s m) r) = left-fifo r
  left-fifo (next (waits q ps s m) r) = left-fifo r
  left-fifo (next (takes q t w ps e m) r) = rw (left-fifo r, (pop_split q t w e).0)
  left-fifo (next (continues q ps s m) r) = left-fifo r
  left-fifo (next (finishes q w ps m) r) = left-fifo r
