-- ===== src/Server/Startup/LostStop.antt =====
-- A shutdown that falls into a start of Server.
use my_server.Common.{◌≤◌, ℕ, ◌+◌, ◌<◌, ◌≡◌, refl, false, arith}
use my_server.Server.Types.{running, stopping, ShutdownMode}
use my_server.Server.Startup.Runs.{AnyStep, spawns}
use my_server.Server.Startup.{
  notify_all, notify_one, notify_nobody, go_on, give_up, fall_asleep, Startup, Label, shutdown,
  in_loop, Step, Run, here, next, begin, reset_stop, reset_depth, spawn, ask, look_over, look_on,
  set_stopping, request, join, enter, admit, turn_away, push, refuse, count, take, uncount,
  find_empty, leave, stay,
}

-- The state is `stopping`, but no stop is requested, nobody is about to request one, and `n` workers
-- are in their loop.
pub record HasLostStop (n : ℕ) (s : Startup) : Type 0 where
  pub state : s.state ≡ stopping
  pub no_stop : s.stop_requested ≡ false
  pub no_start : s.at_stop ≡ 0
  pub no_load : s.at_load ≡ 0
  pub no_set : s.at_set ≡ 0
  pub no_request : s.at_request ≡ 0
  pub workers : in_loop s ≡ n
  pub spawned : s.spawning ≡ 0
  pub no_reset : s.at_depth ≡ 0

abbrev pub NoShutdown : Startup → Label → Type 0
NoShutdown s (shutdown m) = ⊥
NoShutdown s l = Unit {0}

module _ (capacity pool n : ℕ) where
  Step-HasLostStop :
      (s t : Startup) (l : Label)
      → 0 < n
      → NoShutdown s l
      → Step capacity pool s t l
      → HasLostStop n s
      → HasLostStop n t
  Step-HasLostStop s t _ pos ok (begin h e) v = ground (arith, v.state)
  Step-HasLostStop s t _ pos ok (reset_stop k h e) v = absurd (omega (arith, v.no_start))
  Step-HasLostStop s t _ pos ok (reset_depth k h e) v = absurd (omega (arith, v.no_reset))
  Step-HasLostStop s t _ pos ok (ask m e) v = absurd ok
  Step-HasLostStop s t _ pos ok (look_over k h o e) v = absurd (omega (arith, v.no_load))
  Step-HasLostStop s t _ pos ok (look_on k h o e) v = absurd (omega (arith, v.no_load))
  Step-HasLostStop s t _ pos ok (set_stopping k h e) v = absurd (omega (arith, v.no_set))
  Step-HasLostStop s t _ pos ok (request k h e) v = absurd (omega (arith, v.no_request))
  Step-HasLostStop s t _ pos ok (join h z e) v = absurd (omega (arith, v.workers))
  Step-HasLostStop s t _ pos ok (enter h e) v = ground (arith, v.state)
  Step-HasLostStop s t _ pos ok (leave k h x e) v = ground (arith, v.no_stop)
  Step-HasLostStop s t _ pos ok (spawn k h e) v = absurd (omega (arith, v.spawned))
  Step-HasLostStop s t _ pos ok (admit k h c e) v = ground (arith, v.workers)
  Step-HasLostStop s t _ pos ok (turn_away k h c e) v = ground (arith, v.workers)
  Step-HasLostStop s t _ pos ok (push k h e) v = ground (arith, v.workers)
  Step-HasLostStop s t _ pos ok (refuse k h e) v = ground (arith, v.workers)
  Step-HasLostStop s t _ pos ok (count k h e) v = ground (arith, v.workers)
  Step-HasLostStop s t _ pos ok (take k j h i e) v = ground (arith, v.workers)
  Step-HasLostStop s t _ pos ok (uncount k h e) v = ground (arith, v.workers)
  Step-HasLostStop s t _ pos ok (find_empty k h i e) v = ground (arith, v.workers)
  Step-HasLostStop s t _ pos ok (stay k h x e) v = ground (arith, v.workers)
  Step-HasLostStop s t _ pos ok (notify_all k h e) v = ground (arith, v.workers)
  Step-HasLostStop s t _ pos ok (notify_one k j h i e) v = ground (arith, v.workers)
  Step-HasLostStop s t _ pos ok (notify_nobody k h i e) v = ground (arith, v.workers)
  Step-HasLostStop s t _ pos ok (go_on k h x e) v = ground (arith, v.workers)
  Step-HasLostStop s t _ pos ok (give_up k h x e) v = ground (arith, v.workers)
  Step-HasLostStop s t _ pos ok (fall_asleep k h e) v = ground (arith, v.workers)

  Run-HasLostStop :
      {s t : Startup} → 0 < n → Run capacity pool NoShutdown s t → HasLostStop n s → HasLostStop n t
  Run-HasLostStop pos here v = v
  Run-HasLostStop pos (next {t = t} {u = u} {l = l} r ok st) v =
      Step-HasLostStop t u l pos ok st (Run-HasLostStop pos r v)

module _ (capacity pool : ℕ) where
  -- While a start has set the state and not yet reset the stop flag, and no other start or shutdown is
  -- under way, a whole shutdown can run: the start then takes the stop back. The server is left in the
  -- state `stopping` with the new workers in their loop, and without another shutdown no worker
  -- ever leaves it, the state stays `stopping`, and so `wait` does not return.
  pub stop_lost :
      (s : Startup) (m : ShutdownMode)
      → 0 < pool
      → s.state ≡ running
      → s.at_stop ≡ 1
      → s.at_depth ≡ 0
      → s.at_load ≡ 0
      → s.at_set ≡ 0
      → s.at_request ≡ 0
      → (t : Startup) × Run capacity pool AnyStep s t
        × (pool ≤ in_loop t)
        × ((u : Startup)
            → Run capacity pool NoShutdown t u
            → (u.state ≡ stopping) × (u.stop_requested ≡ false) × (in_loop u ≡ in_loop t))
  stop_lost s m pos up one depth load set req = (
    last,
    spawns capacity pool (s.spawning + pool) s _
        (next
          (next
            (next
              (next
                (next
                  (next (next here tt (ask m refl)) tt (look_on s.at_load refl (ground arith) refl))
                  tt (set_stopping s.at_set refl refl))
                tt (request s.at_request refl refl))
              tt (notify_all s.at_notify refl refl))
            tt (reset_stop 0 one refl))
          tt (reset_depth s.at_depth refl refl))
        refl,
    omega arith,
    λ u r.
        let v = Run-HasLostStop capacity pool (in_loop last) (omega arith) r lost in
        (v.state, v.no_stop, v.workers),
  )
    where
      last : Startup
      last = record s {
        state = stopping;
        stop_requested = false;
        mode = m;
        queued_approx = 0;
        at_stop = 0;
        spawning = 0;
        searching = s.searching + (s.spawning + pool);
        asleep = 0;
        at_test = s.at_test + s.asleep;
      }

      lost : HasLostStop (in_loop last) last
      lost = record {
        state = refl;
        no_stop = refl;
        no_start = refl;
        no_load = load;
        no_set = set;
        no_request = req;
        workers = omega arith;
        spawned = refl;
        no_reset = depth;
      }
