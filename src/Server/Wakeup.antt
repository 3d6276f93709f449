-- ===== src/Server/Wakeup.antt =====
-- Server::workerLoop, trySubmit and shutdown of app/include/server/server.h between their atomic
-- accesses: any number of workers and of submissions under way, and the condition variable. A worker
-- tests the wake-up condition under `wakeMutex_`, but the notifiers do not take that mutex, so a
-- notification can fall between the test and the sleep. Wake-ups without a notification, which the
-- language allows and does not promise, are no step. `wakeMutex_` is left out: several workers may stand
-- between their test and their sleep, so there are more interleavings here than in the source.
pub mod Awake
pub mod Counter
pub mod Stranded
mod Tests
use my_server.Common.{
  update, ◌≢◌, ◌%◌, ◌∙◌, ap, ℕ, ◌+◌, ◌-◌, ◌<◌, ◌≡◌, refl, sym, subst, Bool, true, false, ◌&&◌, ◌||◌,
  arith, ltb, ◌==◌,
}
use my_server.Server.Types.{ShutdownMode, graceful, force}
use my_server.Server.Metrics.{fetch_add, fetch_sub, u64}

-- Where a worker stands: before `tryPop`, between `tryPop` and the count, before
-- `shouldExitWorker`, before the test of the condition, between the test and the sleep, asleep, or
-- out of the loop.
pub data WorkerAt : Type 0 where
  at_pop at_uncount at_exit at_test at_sleep asleep out : WorkerAt

-- `stored` submissions have pushed and not counted, `counted` ones have counted and not notified,
-- and `stop_notice` says that a shutdown has still to notify.
pub record Threads : Type 0 where
  pub workers : ℕ → WorkerAt
  pub items : ℕ
  pub queued_approx : ℕ
  pub stored : ℕ
  pub counted : ℕ
  pub stop_requested : Bool
  pub mode : ShutdownMode
  pub stop_notice : Bool

-- A notification reaches a worker that sleeps, and no other.
abbrev pub notified : WorkerAt → WorkerAt
notified w = elim w [ asleep ↦ at_test | other ↦ other ]

-- `shouldExitWorker`.
abbrev pub exits : Threads → Bool
exits s = s.stop_requested && (elim s.mode [ force ↦ true | graceful ↦ s.queued_approx == 0 ])

-- The condition of the wait.
abbrev pub awake : Threads → Bool
awake s = ltb 0 s.queued_approx || s.stop_requested

-- Worker `i` goes on to `place`.
abbrev pub moves : Threads → ℕ → WorkerAt → ℕ → WorkerAt
moves s i place = update s.workers i place

module _ (pool : ℕ) where
  -- The steps of the `pool` workers and of the calls under way, but for new calls. `notify_one` wakes
  -- some worker that sleeps, if there is one.
  pub data Move (s t : Threads) : Type 0 where
    count :
        0 < s.stored
        → t ≡ record s {
          stored = s.stored - 1;
          counted = s.counted + 1;
          queued_approx = fetch_add s.queued_approx;
        }
        → Move s t
    notify_one :
        (i : ℕ)
        → 0 < s.counted
        → i < pool
        → s.workers i ≡ asleep
        → t ≡ record s { counted = s.counted - 1; workers = moves s i (notified asleep) }
        → Move s t
    notify_nobody :
        0 < s.counted
        → ((i : ℕ) → i < pool → s.workers i ≢ asleep)
        → t ≡ record s { counted = s.counted - 1 }
        → Move s t
    notify_all :
        s.stop_notice ≡ true
        → t ≡ record s { stop_notice = false; workers = λ i. notified (s.workers i) }
        → Move s t
    pop :
        (i : ℕ)
        → i < pool
        → s.workers i ≡ at_pop
        → 0 < s.items
        → t ≡ record s { workers = moves s i at_uncount; items = s.items - 1 }
        → Move s t
    uncount :
        (i : ℕ)
        → i < pool
        → s.workers i ≡ at_uncount
        → t ≡ record s { workers = moves s i at_pop; queued_approx = fetch_sub s.queued_approx }
        → Move s t
    find_empty :
        (i : ℕ)
        → i < pool
        → s.workers i ≡ at_pop
        → s.items ≡ 0
        → t ≡ record s { workers = moves s i at_exit }
        → Move s t
    leave :
        (i : ℕ)
        → i < pool
        → s.workers i ≡ at_exit
        → exits s ≡ true
        → t ≡ record s { workers = moves s i out }
        → Move s t
    stay :
        (i : ℕ)
        → i < pool
        → s.workers i ≡ at_exit
        → exits s ≡ false
        → t ≡ record s { workers = moves s i at_test }
        → Move s t
    go_on :
        (i : ℕ)
        → i < pool
        → s.workers i ≡ at_test
        → awake s ≡ true
        → t ≡ record s { workers = moves s i at_pop }
        → Move s t
    give_up :
        (i : ℕ)
        → i < pool
        → s.workers i ≡ at_test
        → awake s ≡ false
        → t ≡ record s { workers = moves s i at_sleep }
        → Move s t
    fall_asleep :
        (i : ℕ)
        → i < pool
        → s.workers i ≡ at_sleep
        → t ≡ record s { workers = moves s i asleep }
        → Move s t

  -- With the steps of callers that start: a submission stores its event, a shutdown requests a stop.
  pub data Step (s t : Threads) : Type 0 where
    move : Move s t → Step s t
    store : t ≡ record s { items = s.items + 1; stored = s.stored + 1 } → Step s t
    request_stop :
        (m : ShutdownMode)
        → t ≡ record s { stop_requested = true; mode = m; stop_notice = true }
        → Step s t

  pub data Moves (s : Threads) : Threads → Type 0 where
    here : Moves s s
    next : {t u : Threads} → Moves s t → Move t u → Moves s u

  pub data Steps (s : Threads) : Threads → Type 0 where
    here : Steps s s
    next : {t u : Threads} → Steps s t → Step t u → Steps s u
