-- ===== src/Logger/MpscQueue/Tests.antt =====
-- Runs of MpscQueue, and the theorems about it at concrete inputs.
use my_server.Common.{update, none, some, [], ◌∷◌, ◌≡◌, refl, arith, subst, NotIn}
use my_server.Logger.MpscQueue.{
  MpscQueue, new, push, exchange, pop, popped, nothing, unpublished, stub,
}
use my_server.Logger.MpscQueue.Fifo.{new-Holds, Holds, exchange-Holds}
use my_server.Logger.MpscQueue.Traffic.{Reach, here, next, exchanges, Traffic, IsFair, Reach-IsFair}

order_runs :
    (r : MpscQueue) × (s : MpscQueue) × (pop (push 9 (push 5 new)) ≡ popped 5 r)
    × (pop r ≡ popped 9 s)
    × (pop s ≡ nothing)
unfolding pop push new
order_runs = (_, _, refl, refl, refl)

-- The second producer is done before the first one has written its link.
abbrev torn : MpscQueue
torn = (exchange 9 (exchange 5 new).0).0

waits_runs : pop torn ≡ unpublished
unfolding pop exchange new
waits_runs = refl

-- One push half done.
unfoldable half : Traffic
unfolding new exchange
half = record {
  queue = (exchange 5 new).0;
  pending = update (λ a. none) (exchange 5 new).1 (some 5);
  pushed = 5 ∷ [];
  taken = [];
}

half-Reach : Reach half
unfolding half
half-Reach =
    next here
      (exchanges 5 (λ xs e. subst (λ ys. NotIn 5 (stub ∷ ys)) e ((λ k. omega arith), tt)) refl)

Reach-IsFair_example : IsFair half
Reach-IsFair_example = Reach-IsFair half-Reach

half-Holds : Holds half.queue half.pending (5 ∷ [])
unfolding half
half-Holds = exchange-Holds 5 new (λ a. none) [] ((λ e. omega arith), tt) new-Holds
