-- ===== src/Workqueue/Workers.antt =====
-- The workers of the queue: all work that is taken is handled or still with a worker, and how much
-- is taken after a stop.
use libinv.Prelude.{ℕ, ◌+◌, ◌≤◌, ◌≡◌, refl, ◌∙◌, true, List, [], ◌∷◌, arith, length}
use libinv.Workqueue.{
  Phase, waiting, running, Workqueue, push, Moves, here, there, Event, handled, pushes, stops,
  breaks, waits, takes, continues, finishes, Run, done, next,
}
use libinv.Workqueue.Runs.{left, pop_split}

module _ {Work : Type 0} where
  -- A measure of phases, added up over the workers; and of work, over a list.
  unfoldable pub total : (Phase Work → ℕ) → List (Phase Work) → ℕ
  total f [] = 0
  total f (p ∷ ps) = f p + total f ps

  unfoldable pub sum : (Work → ℕ) → List Work → ℕ
  sum g [] = 0
  sum g (w ∷ ws) = g w + sum g ws

  total-Moves :
      (f : Phase Work → ℕ) {p q : Phase Work} {ps qs : List (Phase Work)}
      → Moves p q ps qs
      → total f qs + f p ≡ total f ps + f q
  unfolding total
  total-Moves f (here ps) = omega arith
  total-Moves f (there o m) = omega (arith, total-Moves f m)

  unfoldable pub finished : List (Event Work) → List Work
  finished [] = []
  finished (handled w ∷ es) = w ∷ finished es
  finished (_ ∷ es) = finished es

  -- What a worker has in hand.
  unfoldable pub in_hand : (Work → ℕ) → Phase Work → ℕ
  in_hand g (running w) = g w
  in_hand g _ = 0

  -- However work is counted: what the workers had in hand and took in a run is what was handled in
  -- it and what they have in hand at its end.
  pub taken_handled :
      (g : Work → ℕ) {q s : Workqueue Work} {es : List (Event Work)}
      → Run q es s
      → sum g (left es) + total (in_hand g) q.workers
        ≡ sum g (finished es) + total (in_hand g) s.workers
  unfolding left finished sum in_hand push
  taken_handled g (done q) = refl
  taken_handled g (next (pushes w q) r) = taken_handled g r
  taken_handled g (next (stops q) r) = taken_handled g r
  taken_handled g (next (breaks q ps s m) r) =
      omega (arith, taken_handled g r, total-Moves (in_hand g) m)
  taken_handled g (next (waits q ps s m) r) =
      omega (arith, taken_handled g r, total-Moves (in_hand g) m)
  taken_handled g (next (takes q t w ps e m) r) =
      omega (arith, taken_handled g r, total-Moves (in_hand g) m)
  taken_handled g (next (continues q ps s m) r) =
      omega (arith, taken_handled g r, total-Moves (in_hand g) m)
  taken_handled g (next (finishes q w ps m) r) =
      omega (arith, taken_handled g r, total-Moves (in_hand g) m)

  unfoldable pub is_waiting : Phase Work → ℕ
  is_waiting waiting = 1
  is_waiting _ = 0

  -- After a stop no more entries are taken than there are workers waiting at that time.
  pub left-stopped :
      {q s : Workqueue Work} {es : List (Event Work)}
      → Run q es s
      → q.stop ≡ true
      → length (left es) ≤ total is_waiting q.workers
  unfolding left is_waiting push
  left-stopped (done q) h = omega arith
  left-stopped (next (pushes w q) r) h = left-stopped r h
  left-stopped (next (stops q) r) h = left-stopped r refl
  left-stopped (next (breaks q ps s m) r) h =
      omega (arith, left-stopped r h, total-Moves is_waiting m)
  left-stopped (next (waits q ps s m) r) h = cc
  left-stopped (next (takes q t w ps e m) r) h =
      omega (arith, left-stopped r ((pop_split q t w e).1 ∙ h), total-Moves is_waiting m)
  left-stopped (next (continues q ps s m) r) h =
      omega (arith, left-stopped r h, total-Moves is_waiting m)
  left-stopped (next (finishes q w ps m) r) h =
      omega (arith, left-stopped r h, total-Moves is_waiting m)
