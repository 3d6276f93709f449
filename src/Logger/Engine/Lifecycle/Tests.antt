-- ===== src/Logger/Engine/Lifecycle/Tests.antt =====
-- The life of the worker's thread: the theorems about it at concrete states.
use my_server.Common.{◌≤◌, ◌≡◌, refl, true, false}
use my_server.Logger.Engine.Lifecycle.{
  Lifecycle, created, Steps, begins, inits, spawns, halts, leaves, joins,
}
use my_server.Logger.Engine.Lifecycle.Apart.{Reach, here, next, apart_never_aborts}
use my_server.Logger.Engine.Lifecycle.Overlap.{overlap_aborts}

abbrev started : Lifecycle
started = record {
  run = true;
  joinable = true;
  workers = 1;
  at_init = 0;
  at_thread = 0;
  stopping = 0;
  pools = 1;
  terminated = false;
}

abbrev stopped : Lifecycle
stopped = record started { run = false; joinable = false; workers = 0 }

started-Reach : Reach started
unfolding created
started-Reach =
    next (next (next here (begins refl refl) refl) (inits 0 refl refl) tt) (spawns 0 refl refl refl)
      tt

stopped-Reach : Reach stopped
stopped-Reach =
    next (next (next started-Reach (halts refl refl) refl) (leaves 0 refl refl refl) tt)
      (joins 0 refl refl refl refl) tt

apart_never_aborts_example :
    (stopped.terminated ≡ false)
    × (stopped.workers ≤ 1)
    × (stopped.run ≡ false
        → stopped.stopping ≡ 0
        → (stopped.joinable ≡ false) × (stopped.workers ≡ 0))
apart_never_aborts_example = apart_never_aborts stopped stopped-Reach

overlap_aborts_example :
    (t : Lifecycle) × Steps started t × (t.terminated ≡ true) × (t.workers ≡ 1) × (t.pools ≡ 2)
overlap_aborts_example = overlap_aborts started refl refl
