-- ===== src/Server/Runtime/Drain.antt =====
-- Server::workerLoop run to its end: what is left of the queue, and what the parts have seen.
use my_server.Common.{
  true, false, inr, inl, ℕ, zero, suc, ◌<◌, ◌≡◌, refl, ap, ◌∙◌, none, some, List, [], ◌∷◌, arith,
  if◌then◌else◌, length, Option-cases,
}
use my_server.Server.Metrics.{fetch_sub, u64}
use my_server.Server.Parts.{ServerParts, IsFifo}
use my_server.Server.Runtime.{
  stopping, is_over, ShutdownMode, shutdown, Server, LoopEnd, is_over, shutdown, exited, waiting,
  try_pop_one, should_exit_worker, run_event, worker_loop,
}
use my_server.Server.Runtime.Processing.{pipeline, IsAfter, run_event_lem}

module _ (p : ServerParts) (contents : p.Queue → List p.Event) (fifo : IsFifo p contents) where
  -- The pipeline over events in order.
  pub feed : List p.Event → p.World → p.World
  feed [] w = w
  feed (e ∷ es) w = feed es (pipeline p e w).0

  -- The counter is the length of the queue, and nothing is in flight.
  pub record IsInSync (s : Server p) : Type 0 where
    pub sync : s.queued_approx ≡ length (contents s.queue)
    pub small : length (contents s.queue) < u64
    pub none_inflight : s.metrics.inflight ≡ 0

  -- What a run from `s` has come to.
  pub record IsDrained (s : Server p) (r : Server p × LoopEnd) : Type 0 where
    pub left : contents r.0.queue ≡ []
    pub seen : r.0.world ≡ feed (contents s.queue) s.world
    pub depth : r.0.queued_approx ≡ 0
    pub end : r.1 ≡ (if s.stop_requested then exited else waiting)

  -- At an empty queue in sync the shutdown mode does not matter.
  should_exit-stop :
      (s : Server p) → s.queued_approx ≡ 0 → should_exit_worker p s ≡ s.stop_requested
  unfolding should_exit_worker
  should_exit-stop s z = ground arith

  try_pop_one-nil : (s : Server p) → contents s.queue ≡ [] → try_pop_one p s ≡ none
  unfolding try_pop_one
  try_pop_one-nil s c = elim (Option-cases (p.try_pop s.queue)) [
    | inl z ↦ ground arith
    | inr ((e, q), h) ↦ absurd (cc (fifo.popped s.queue q e h))
  ]

  try_pop_one-cons :
      (s : Server p) (e : p.Event) (es : List p.Event)
      → contents s.queue ≡ e ∷ es
      → (q : p.Queue) × (try_pop_one p s
          ≡ some (e, record s { queue = q; queued_approx = fetch_sub s.queued_approx }))
        × (contents q ≡ es)
  unfolding try_pop_one
  try_pop_one-cons s e es c = elim (Option-cases (p.try_pop s.queue)) [
    | inl z ↦ absurd (cc (fifo.empty s.queue z))
    | inr ((d, q), h) ↦
        let f = fifo.popped s.queue q d h in (q, ground (arith, f), ground (arith, f))
  ]

  -- One round on a queue that starts with `e`: `popped` is the state after `tryPopOne`.
  record Round (s : Server p) (e : p.Event) (es : List p.Event) : Type 0 where
    popped : Server p
    pops : try_pop_one p s ≡ some (e, popped)
    now : contents (run_event p e popped).queue ≡ es
    synced : IsInSync (run_event p e popped)
    world : (run_event p e popped).world ≡ (pipeline p e s.world).0
    same_stop : (run_event p e popped).stop_requested ≡ s.stop_requested

  round :
      (s : Server p) (e : p.Event) (es : List p.Event)
      → contents s.queue ≡ e ∷ es
      → IsInSync s
      → Round s e es
  round s e es c v = record {
    popped = after_pop;
    pops = x.1;
    now = now;
    synced = record {
      sync = rw (a.same_depth, now) (omega (arith, v.sync, v.small, ap length c));
      small = rw now (omega (arith, v.small, ap length c));
      none_inflight = ground (arith, a.metrics, v.none_inflight);
    };
    world = a.world;
    same_stop = a.same_stop;
  }
    where
      x :
          (q : p.Queue) × (try_pop_one p s
            ≡ some (e, record s { queue = q; queued_approx = fetch_sub s.queued_approx }))
          × (contents q ≡ es)
      x = try_pop_one-cons s e es c

      after_pop : Server p
      after_pop = record s { queue = x.0; queued_approx = fetch_sub s.queued_approx }

      a : IsAfter p after_pop (pipeline p e s.world) (run_event p e after_pop)
      a = run_event_lem p e after_pop (omega (arith, v.none_inflight))

      now : contents (run_event p e after_pop).queue ≡ es
      now = ap contents a.same_queue ∙ x.2

  -- A round and what follows it.
  extend_run :
      (s : Server p) (e : p.Event) (es : List p.Event) (r : Server p × LoopEnd)
      → contents s.queue ≡ e ∷ es
      → (x : Round s e es) → IsDrained (run_event p e x.popped) r
      → IsDrained s r
  unfolding feed
  extend_run s e es r c x d = record {
    left = d.left;
    seen = d.seen ∙ rw (x.now, x.world, c);
    depth = d.depth;
    end = ground (arith, d.end, x.same_stop);
  }

  drained :
      (fuel : ℕ) (s : Server p) (es : List p.Event)
      → contents s.queue ≡ es
      → length es < fuel
      → IsInSync s
      → IsDrained s (worker_loop p fuel s)
  unfolding worker_loop feed
  drained zero s es c h v = absurd (omega arith)
  drained (suc fuel) s [] c h v =
      rw (try_pop_one-nil s c, worker_loop)
        (record {
          left = c;
          seen = rw c;
          depth = v.sync ∙ ap length c;
          end = rw (should_exit-stop s (v.sync ∙ ap length c));
        })
  drained (suc fuel) s (e ∷ es) c h v =
      let x = round s e es c v in
      rw (x.pops, worker_loop)
        (extend_run s e es _ c x
          (drained fuel (run_event p e x.popped) es x.now (omega arith) x.synced))

  -- With fuel beyond the length of a first-in first-out queue, and the depth counter in step with
  -- it, a worker takes every event through the pipeline, oldest first, until the queue is empty;
  -- then it leaves its loop if a stop is requested, in either shutdown mode, and waits if not.
  pub worker_loop_drains :
      (fuel : ℕ) (s : Server p)
      → length (contents s.queue) < fuel
      → IsInSync s
      → IsDrained s (worker_loop p fuel s)
  worker_loop_drains fuel s h v = drained fuel s (contents s.queue) refl h v

  -- After a shutdown of a server that is not over, in either mode, and with fuel beyond the length
  -- of its queue, a worker leaves its loop with the queue empty and every event taken through the
  -- pipeline, oldest first: `force` discards none.
  pub shutdown_drains :
      (fuel : ℕ) (mode : ShutdownMode) (s : Server p)
      → is_over s.state ≡ false
      → length (contents s.queue) < fuel
      → IsInSync s
      → ((worker_loop p fuel (shutdown p mode s)).1 ≡ exited)
        × (contents (worker_loop p fuel (shutdown p mode s)).0.queue ≡ [])
        × ((worker_loop p fuel (shutdown p mode s)).0.world ≡ feed (contents s.queue) s.world)
  unfolding shutdown
  shutdown_drains fuel mode s o h v = rw o (d.end, d.left, d.seen)
    where
      stopping_now : Server p
      stopping_now = record s { shutdown_mode = mode; state = stopping; stop_requested = true }

      d : IsDrained stopping_now (worker_loop p fuel stopping_now)
      d =
          worker_loop_drains fuel stopping_now h
            (record { sync = v.sync; small = v.small; none_inflight = v.none_inflight })
