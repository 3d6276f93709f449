-- ===== src/Server/Admission.antt =====
-- Server::trySubmit under backpressure, in app/include/server/server.h, between its atomic accesses: any
-- number of submissions and workers, which count the events of the queue apart from storing and taking
-- them. Submissions that the test refuses change nothing and are no step.
pub mod Bound
mod Tests
use my_server.Common.{ℕ, suc, ◌+◌, ◌<◌, ◌≤◌, ◌≡◌}
use my_server.Server.Metrics.{fetch_add, fetch_sub}

-- `admitted` submissions have passed the test of the depth and not pushed, `stored` ones have pushed
-- and not counted, and `popped` workers have taken an event and not counted it.
pub record Admission : Type 0 where
  pub items : ℕ
  pub queued_approx : ℕ
  pub admitted : ℕ
  pub stored : ℕ
  pub popped : ℕ

abbrev pub no_events : Admission
no_events = record { items = 0; queued_approx = 0; admitted = 0; stored = 0; popped = 0 }

-- With a capacity, and at most `threads` submissions at once. `refuse` is a push that the queue does
-- not take.
pub data Step (capacity threads : ℕ) (s t : Admission) : Type 0 where
  admit :
      s.queued_approx < capacity
      → s.admitted + s.stored < threads
      → t ≡ record s { admitted = suc s.admitted }
      → Step capacity threads s t
  push :
      (k : ℕ)
      → s.admitted ≡ suc k
      → t ≡ record s { admitted = k; items = suc s.items; stored = suc s.stored }
      → Step capacity threads s t
  refuse : (k : ℕ) → s.admitted ≡ suc k → t ≡ record s { admitted = k } → Step capacity threads s t
  count :
      (k : ℕ)
      → s.stored ≡ suc k
      → t ≡ record s { stored = k; queued_approx = fetch_add s.queued_approx }
      → Step capacity threads s t
  take :
      (k : ℕ)
      → s.items ≡ suc k
      → t ≡ record s { items = k; popped = suc s.popped }
      → Step capacity threads s t
  uncount :
      (k : ℕ)
      → s.popped ≡ suc k
      → t ≡ record s { popped = k; queued_approx = fetch_sub s.queued_approx }
      → Step capacity threads s t

pub data Reach (capacity threads : ℕ) : Admission → Type 0 where
  here : Reach capacity threads no_events
  next :
      {s t : Admission}
      → Reach capacity threads s
      → Step capacity threads s t
      → Reach capacity threads t
