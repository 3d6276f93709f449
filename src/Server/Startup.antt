-- ===== src/Server/Startup.antt =====
-- Server::start, shutdown, wait, trySubmit and workerLoop of app/include/server/server.h between their
-- atomic accesses, under backpressure, with the condition variable: any number of calls of any thread.
-- The two exchanges of start are one step, and so are the tests of shouldExitWorker, those of the
-- condition of the wait, and the load and the store at the end of wait. `wakeMutex_` is left out, which
-- only adds interleavings; a wake-up without a notification is no step.
pub mod Runs
pub mod Calm
pub mod WindDown
pub mod CanStop
pub mod LostStop
pub mod Jammed
mod Tests
use my_server.Common.{ℕ, suc, ◌+◌, ◌<◌, ◌≤◌, ◌≡◌, Bool, true, false, ◌&&◌, ◌||◌, ltb, ◌==◌}
use my_server.Server.Types.{
  ServerState, running, stopping, stopped, failed, ShutdownMode, graceful, force,
}
use my_server.Server.Metrics.{fetch_add, fetch_sub}
use my_server.Server.Runtime.{is_startable, is_over}

-- How many calls stand where. `at_stop` starts have won the exchange of the state and not reset the
-- stop flag, `at_depth` ones not reset the counter, and `spawning` threads are still to be created;
-- `at_load` shutdowns have stored the mode, `at_set` ones have seen a server that is not over, and
-- `at_request` ones have stored the state, and
-- `at_notify` ones have still to notify; `entered` submissions have seen a running server,
-- `admitted` ones have seen room, and `stored` ones have pushed and not counted, and
-- `counted` ones have still to notify; `searching` workers
-- are before `tryPop`, `popped` ones before the count, `empty_handed` ones have found nothing,
-- `at_test` ones are before the test of the condition, `at_sleep` ones between a test that failed and
-- their sleep, and `asleep` ones wait for a notification.
pub record Startup : Type 0 where
  pub state : ServerState
  pub stop_requested : Bool
  pub mode : ShutdownMode
  pub items : ℕ
  pub queued_approx : ℕ
  pub at_stop : ℕ
  pub at_depth : ℕ
  pub spawning : ℕ
  pub at_load : ℕ
  pub at_set : ℕ
  pub at_request : ℕ
  pub at_notify : ℕ
  pub entered : ℕ
  pub admitted : ℕ
  pub stored : ℕ
  pub counted : ℕ
  pub searching : ℕ
  pub popped : ℕ
  pub empty_handed : ℕ
  pub at_test : ℕ
  pub at_sleep : ℕ
  pub asleep : ℕ

-- A step is the first access of a call, or goes on with one that is under way.
pub data Label : Type 0 where
  start wait submit inner : Label
  shutdown : ShutdownMode → Label

-- `shouldExitWorker`.
abbrev pub exits : Startup → Bool
exits s = s.stop_requested && (elim s.mode [ force ↦ true | graceful ↦ s.queued_approx == 0 ])

-- The condition of the wait.
abbrev pub wakes : Startup → Bool
wakes s = ltb 0 s.queued_approx || s.stop_requested

abbrev pub in_loop : Startup → ℕ
in_loop s = s.searching + s.popped + s.empty_handed + (s.at_test + s.at_sleep + s.asleep)

module _ (capacity pool : ℕ) where
  pub data Step (s t : Startup) : Label → Type 0 where
    -- start
    begin :
        is_startable s.state ≡ true
        → t ≡ record s { state = running; at_stop = suc s.at_stop }
        → Step s t start
    reset_stop :
        (k : ℕ)
        → s.at_stop ≡ suc k
        → t ≡ record s { at_stop = k; stop_requested = false; at_depth = suc s.at_depth }
        → Step s t inner
    reset_depth :
        (k : ℕ)
        → s.at_depth ≡ suc k
        → t ≡ record s { at_depth = k; queued_approx = 0; spawning = s.spawning + pool }
        → Step s t inner
    spawn :
        (k : ℕ)
        → s.spawning ≡ suc k
        → t ≡ record s { spawning = k; searching = suc s.searching }
        → Step s t inner
    -- shutdown
    ask :
        (m : ShutdownMode)
        → t ≡ record s { mode = m; at_load = suc s.at_load }
        → Step s t (shutdown m)
    look_over :
        (k : ℕ)
        → s.at_load ≡ suc k
        → is_over s.state ≡ true
        → t ≡ record s { at_load = k }
        → Step s t inner
    look_on :
        (k : ℕ)
        → s.at_load ≡ suc k
        → is_over s.state ≡ false
        → t ≡ record s { at_load = k; at_set = suc s.at_set }
        → Step s t inner
    set_stopping :
        (k : ℕ)
        → s.at_set ≡ suc k
        → t ≡ record s { at_set = k; state = stopping; at_request = suc s.at_request }
        → Step s t inner
    request :
        (k : ℕ)
        → s.at_request ≡ suc k
        → t ≡ record s { at_request = k; stop_requested = true; at_notify = suc s.at_notify }
        → Step s t inner
    notify_all :
        (k : ℕ)
        → s.at_notify ≡ suc k
        → t ≡ record s { at_notify = k; asleep = 0; at_test = s.at_test + s.asleep }
        → Step s t inner
    -- wait, when every thread has been joined
    join :
        in_loop s ≡ 0
        → s.spawning ≡ 0
        → t ≡ record s { state = elim s.state [ failed ↦ failed | _ ↦ stopped ] }
        → Step s t wait
    -- trySubmit
    enter : s.state ≡ running → t ≡ record s { entered = suc s.entered } → Step s t submit
    admit :
        (k : ℕ)
        → s.entered ≡ suc k
        → s.queued_approx < capacity
        → t ≡ record s { entered = k; admitted = suc s.admitted }
        → Step s t inner
    turn_away :
        (k : ℕ)
        → s.entered ≡ suc k
        → capacity ≤ s.queued_approx
        → t ≡ record s { entered = k }
        → Step s t inner
    push :
        (k : ℕ)
        → s.admitted ≡ suc k
        → t ≡ record s { admitted = k; items = suc s.items; stored = suc s.stored }
        → Step s t inner
    refuse : (k : ℕ) → s.admitted ≡ suc k → t ≡ record s { admitted = k } → Step s t inner
    count :
        (k : ℕ)
        → s.stored ≡ suc k
        → t ≡ record s {
          stored = k;
          queued_approx = fetch_add s.queued_approx;
          counted = suc s.counted;
        }
        → Step s t inner
    notify_one :
        (k j : ℕ)
        → s.counted ≡ suc k
        → s.asleep ≡ suc j
        → t ≡ record s { counted = k; asleep = j; at_test = suc s.at_test }
        → Step s t inner
    notify_nobody :
        (k : ℕ) → s.counted ≡ suc k → s.asleep ≡ 0 → t ≡ record s { counted = k } → Step s t inner
    -- workerLoop
    take :
        (k j : ℕ)
        → s.searching ≡ suc k
        → s.items ≡ suc j
        → t ≡ record s { searching = k; items = j; popped = suc s.popped }
        → Step s t inner
    uncount :
        (k : ℕ)
        → s.popped ≡ suc k
        → t ≡ record s {
          popped = k;
          searching = suc s.searching;
          queued_approx = fetch_sub s.queued_approx;
        }
        → Step s t inner
    find_empty :
        (k : ℕ)
        → s.searching ≡ suc k
        → s.items ≡ 0
        → t ≡ record s { searching = k; empty_handed = suc s.empty_handed }
        → Step s t inner
    leave :
        (k : ℕ)
        → s.empty_handed ≡ suc k
        → exits s ≡ true
        → t ≡ record s { empty_handed = k }
        → Step s t inner
    stay :
        (k : ℕ)
        → s.empty_handed ≡ suc k
        → exits s ≡ false
        → t ≡ record s { empty_handed = k; at_test = suc s.at_test }
        → Step s t inner
    go_on :
        (k : ℕ)
        → s.at_test ≡ suc k
        → wakes s ≡ true
        → t ≡ record s { at_test = k; searching = suc s.searching }
        → Step s t inner
    give_up :
        (k : ℕ)
        → s.at_test ≡ suc k
        → wakes s ≡ false
        → t ≡ record s { at_test = k; at_sleep = suc s.at_sleep }
        → Step s t inner
    fall_asleep :
        (k : ℕ)
        → s.at_sleep ≡ suc k
        → t ≡ record s { at_sleep = k; asleep = suc s.asleep }
        → Step s t inner

  -- Steps that the environment allows.
  pub data Run (allowed : Startup → Label → Type 0) (s : Startup) : Startup → Type 0 where
    here : Run allowed s s
    next :
        {t u : Startup} {l : Label} → Run allowed s t → allowed t l → Step t u l → Run allowed s u
