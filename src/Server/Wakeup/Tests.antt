-- ===== src/Server/Wakeup/Tests.antt =====
-- Interleavings of two workers and their callers, and the theorems about them at concrete ones.
use my_server.Server.Wakeup.Awake.{only_window_strands, is_up}
use my_server.Common.{◌⊎◌, update, arith, ◌≡◌, refl, true, false}
use my_server.Server.Types.{graceful}
use my_server.Server.Wakeup.{
  leave, find_empty, move, here, out, next, at_exit, Threads, Steps, Moves, asleep, at_sleep,
  at_pop,
}
use my_server.Server.Wakeup.Stranded.{shutdown_strands}

-- Of two workers at an empty queue, worker 1 is about to sleep and worker 0 has just begun a round.
abbrev hungry : Threads
hungry = record {
  workers = update (λ i. at_sleep) 0 at_pop;
  items = 0;
  queued_approx = 0;
  stored = 0;
  counted = 0;
  stop_requested = false;
  mode = graceful;
  stop_notice = false;
}

shutdown_strands_example :
    (t : Threads) × Steps 2 hungry t
    × (t.stop_requested ≡ true)
    × ((u : Threads) → Moves 2 t u → u.workers 1 ≡ asleep)
shutdown_strands_example = shutdown_strands 2 hungry 1 graceful (omega arith) refl refl refl

-- Worker 0 of those two, told to stop, finds the queue empty and sees the stop.
abbrev told : Threads
told = record hungry { stop_requested = true; mode = graceful; stop_notice = true }

abbrev left_loop : Threads
left_loop = record told { workers = update (update hungry.workers 0 at_exit) 0 out }

leaving : Steps 2 told left_loop
leaving =
    next (next here (move (find_empty 0 (omega arith) refl refl refl)))
      (move (leave 0 (omega arith) refl refl refl))

only_window_strands_example :
    (is_up (left_loop.workers 0) ≡ true)
    ⊎ ((left_loop.workers 0 ≡ asleep) × (left_loop.stop_notice ≡ true))
only_window_strands_example = only_window_strands 2 0 hungry left_loop graceful (λ e. cc e) leaving
