-- ===== src/Logger/Engine/Lifecycle.antt =====
-- LogEngine::ensure_running, stop_worker and the life of the worker's thread, in
-- modules/logger/src/log_engine.cpp, called by any number of threads: between the exchange of `run_` and
-- what follows it other threads run. `std::thread` is the library's: assigning to a joinable one ends
-- the program, and a join returns when the thread has.
pub mod Apart
pub mod Overlap
mod Tests
use my_server.Common.{ℕ, suc, ◌+◌, ◌≡◌, Bool, true, false}

-- `joinable` is `worker_.joinable()` and `workers` the threads in `worker_loop`; `at_init` and
-- `at_thread` have the calls of ensure_running that won the exchange and are before the new pool, and
-- before the new thread; `stopping` the calls of stop_worker that won the exchange; `pools` the pools so
-- far.
pub record Lifecycle : Type 0 where
  pub run : Bool
  pub joinable : Bool
  pub workers : ℕ
  pub at_init : ℕ
  pub at_thread : ℕ
  pub stopping : ℕ
  pub pools : ℕ
  pub terminated : Bool

unfoldable pub created : Lifecycle
created = record {
  run = false;
  joinable = false;
  workers = 0;
  at_init = 0;
  at_thread = 0;
  stopping = 0;
  pools = 0;
  terminated = false;
}

pub data Step (s t : Lifecycle) : Type 0 where
  -- ensure_running: the exchange, `init_pool_and_queue`, and the assignment of the thread.
  begins : s.run ≡ false → t ≡ record s { run = true; at_init = suc s.at_init } → Step s t
  inits :
      (k : ℕ)
      → s.at_init ≡ suc k
      → t ≡ record s { at_init = k; at_thread = suc s.at_thread; pools = suc s.pools }
      → Step s t
  spawns :
      (k : ℕ)
      → s.at_thread ≡ suc k
      → s.joinable ≡ false
      → t ≡ record s { at_thread = k; joinable = true; workers = suc s.workers }
      → Step s t
  aborts :
      (k : ℕ)
      → s.at_thread ≡ suc k
      → s.joinable ≡ true
      → t ≡ record s { at_thread = k; terminated = true }
      → Step s t
  -- stop_worker: the exchange, and the return without or with a join.
  halts : s.run ≡ true → t ≡ record s { run = false; stopping = suc s.stopping } → Step s t
  skips :
      (k : ℕ) → s.stopping ≡ suc k → s.joinable ≡ false → t ≡ record s { stopping = k } → Step s t
  joins :
      (k : ℕ)
      → s.stopping ≡ suc k
      → s.joinable ≡ true
      → s.workers ≡ 0
      → t ≡ record s { stopping = k; joinable = false }
      → Step s t
  -- A worker leaves its loop.
  leaves : (k : ℕ) → s.workers ≡ suc k → s.run ≡ false → t ≡ record s { workers = k } → Step s t

pub data Steps (s : Lifecycle) : Lifecycle → Type 0 where
  stay : Steps s s
  step : {t u : Lifecycle} → Steps s t → Step t u → Steps s u
