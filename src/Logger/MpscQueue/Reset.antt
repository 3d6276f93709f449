-- ===== src/Logger/MpscQueue/Reset.antt =====
-- MpscQueue::reset: why the node that was taken last is not pushed before it.
use my_server.Common.{ℕ, none, [], ◌≡◌, ◌≢◌, refl, arith}
use my_server.Logger.MpscQueue.{MpscQueue, push, pop, popped, nothing, reset, stub}
use my_server.Logger.MpscQueue.Fifo.{Holds}

-- In an empty queue the node that was taken last, pushed again, is linked to itself: it can be
-- popped for ever, and the queue stays as it is.
push_last_taken :
    (q : MpscQueue) → Holds q (λ a. none) [] → pop (push q.head q) ≡ popped q.head (push q.head q)
unfolding pop push
push_last_taken q h = ground (arith, h.linked)

-- After a reset of an empty queue any node but the stub can be pushed: it is popped once, and then
-- the queue is empty.
reset-push :
    (q : MpscQueue) (n : ℕ)
    → n ≢ stub
    → (r : MpscQueue) × (pop (push n (reset q)) ≡ popped n r)
      × (pop r ≡ nothing)
      × Holds r (λ a. none) []
unfolding pop push reset
reset-push q n ne = (
  record (push n (reset q)) { head = n },
  refl,
  ground arith,
  record { linked = (ground arith, refl, refl); distinct = (tt, tt); outside = λ a f. refl },
)
