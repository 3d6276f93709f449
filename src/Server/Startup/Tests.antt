-- ===== src/Server/Startup/Tests.antt =====
-- Starts of Server among its other calls, and the theorems about them at concrete ones.
use my_server.Common.{◌≡◌, ◌≤◌, refl, false, arith}
use my_server.Server.Types.{running, stopping, stopped, graceful}
use my_server.Server.Startup.{
  Startup, in_loop, Run, here, next, begin, reset_stop, reset_depth, spawn, enter, admit, push,
}
use my_server.Server.Startup.Runs.{AnyStep}
use my_server.Server.Startup.LostStop.{NoShutdown, stop_lost}
use my_server.Server.Startup.Jammed.{JammedAfter, count_lost, late_submission_jams}
use my_server.Server.Startup.Calm.{IsApart, built, IsCalm, Run-IsCalm}

-- A start that has set the state, of a server that was just built.
abbrev waking : Startup
waking = record built { state = running; at_stop = 1 }

stop_lost_example :
    (t : Startup) × Run 8 2 AnyStep waking t
    × (2 ≤ in_loop t)
    × ((u : Startup)
        → Run 8 2 NoShutdown t u
        → (u.state ≡ stopping) × (u.stop_requested ≡ false) × (in_loop u ≡ in_loop t))
stop_lost_example = stop_lost 8 2 waking graceful (omega arith) refl refl refl refl refl refl

abbrev rising : Startup
rising = record built { state = running; at_depth = 1 }

count_lost_example : JammedAfter 8 2 rising
count_lost_example =
    count_lost 8 2 rising (omega arith) (omega arith) (omega arith) refl refl refl refl refl

abbrev late : Startup
late = record built { state = stopped; admitted = 1 }

late_submission_jams_example : JammedAfter 8 2 late
late_submission_jams_example =
    late_submission_jams 8 2 late (omega arith) (omega arith) refl refl refl refl refl

-- A whole start, and a submission that has pushed.
abbrev served : Startup
served = record built { state = running; searching = 1; items = 1; stored = 1 }

serving : Run 8 1 IsApart built served
serving =
    next
      (next
        (next
          (next
            (next (next (next here (refl, refl) (begin refl refl)) tt (reset_stop 0 refl refl)) tt
              (reset_depth 0 refl refl))
            tt (spawn 0 refl refl))
          refl (enter refl refl))
        tt (admit 0 refl (omega arith) refl))
      tt (push 0 refl refl)

Run-IsCalm_example : IsCalm served
Run-IsCalm_example = Run-IsCalm 8 1 served serving
