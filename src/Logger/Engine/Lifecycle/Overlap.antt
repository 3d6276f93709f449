-- ===== src/Logger/Engine/Lifecycle/Overlap.antt =====
-- LogEngine started while a stop is under way, and stopped while a start is.
use my_server.Common.{refl, arith, suc, ◌+◌, ◌≡◌, true, false}
use my_server.Logger.Engine.Lifecycle.{
  Lifecycle, Steps, stay, step, begins, inits, aborts, halts, skips, spawns, leaves,
}

-- From any running engine there is an interleaving of one stop and one start after which the program is
-- ended: the start comes between the exchange of the stop and its join, makes a new pool while the
-- worker still runs on the old one, and assigns to the joinable thread.
pub overlap_aborts :
    (s : Lifecycle)
    → s.run ≡ true
    → s.joinable ≡ true
    → (t : Lifecycle) × Steps s t
      × (t.terminated ≡ true)
      × (t.workers ≡ s.workers)
      × (t.pools ≡ suc s.pools)
overlap_aborts s r j = (
  record s { run = true; stopping = suc s.stopping; pools = suc s.pools; terminated = true },
  step (step (step (step stay (halts r refl)) (begins refl refl)) (inits s.at_init refl refl))
      (aborts s.at_thread refl j refl),
  refl,
  refl,
  refl,
)

-- From any engine whose start has made the pool and not the thread, with no thread before, there is an
-- interleaving with one stop after which no call is under way, the engine does not run, and the thread
-- has ended but was never joined: the stop found nothing to join. The next start ends the program.
early_stop_never_joins :
    (s : Lifecycle)
    → s.run ≡ true
    → s.joinable ≡ false
    → s.workers ≡ 0
    → s.stopping ≡ 0
    → s.at_init ≡ 0
    → s.at_thread ≡ 1
    → (t : Lifecycle) × Steps s t
      × (t.run ≡ false)
      × (t.joinable ≡ true)
      × (t.stopping + t.at_init + t.at_thread + t.workers ≡ 0)
      × ((u : Lifecycle) × Steps t u × (u.terminated ≡ true))
early_stop_never_joins s r j w z a b = (
  record s { run = false; joinable = true; at_thread = 0 },
  step (step (step (step stay (halts r refl)) (skips s.stopping refl j refl)) (spawns 0 b j refl))
      (leaves s.workers refl refl refl),
  refl,
  refl,
  omega (arith, w, z, a),
  (
    record s { run = true; joinable = true; at_thread = 0; pools = suc s.pools; terminated = true },
    step (step (step stay (begins refl refl)) (inits s.at_init refl refl))
        (aborts 0 refl refl refl),
    refl,
  ),
)
