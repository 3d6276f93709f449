-- ===== src/Logger/MpscQueue.antt =====
-- The class MpscQueue of modules/logger/include/logger/core/lockfree_queue.hpp. Nodes are numbers,
-- `stub_` is number 0, and `next` is the field of that name of every MpscNode. A push is two steps,
-- between which other threads run: the exchange of `tail_` and the write of the link.
pub mod Fifo
pub mod Traffic
pub mod Reset
mod Tests
use my_server.Common.{ℕ, Option, none, some, Bool, true, false, update, if◌then◌else◌, ◌==◌}

abbrev pub stub : ℕ
stub = 0

pub record MpscQueue : Type 0 where
  pub next : ℕ → Option ℕ
  pub head : ℕ
  pub tail : ℕ

unfoldable pub new : MpscQueue
new = record { next = λ n. none; head = stub; tail = stub }

-- The first half of a push, with the former tail.
unfoldable pub exchange : ℕ → MpscQueue → MpscQueue × ℕ
exchange n q = (record q { next = update q.next n none; tail = n }, q.tail)

-- The second half.
unfoldable pub publish : ℕ → ℕ → MpscQueue → MpscQueue
publish prev n q = record q { next = update q.next prev (some n) }

unfoldable pub push : ℕ → MpscQueue → MpscQueue
unfolding exchange publish
push n q = let (r, prev) = exchange n q in publish prev n r

-- `unpublished` is the state in which the loop of `pop` reads the link again.
pub data Popped : Type 0 where
  popped : ℕ → MpscQueue → Popped
  nothing unpublished : Popped

unfoldable pub pop : MpscQueue → Popped
pop q = elim (q.next q.head) [
  | some n ↦ popped n (record q { head = n })
  | none ↦ (if q.tail == q.head then nothing else unpublished)
]

unfoldable pub empty : MpscQueue → Bool
empty q = elim (q.next q.head) [ some n ↦ false | none ↦ q.tail == q.head ]

unfoldable pub reset : MpscQueue → MpscQueue
reset q = record { next = update q.next stub none; head = stub; tail = stub }
