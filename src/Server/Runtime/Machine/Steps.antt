-- ===== src/Server/Runtime/Machine/Steps.antt =====
-- Server as a whole: every step keeps the depth counter, the bound and the workers in order.
use my_server.Common.{
  suc, ◌+◌, ◌-◌, ◌<◌, ◌≡◌, inl, inr, sym, ap, ◌∙◌, true, none, some, List, [], arith, if◌then◌else◌,
  length, Option-cases, subst,
}
use my_server.Server.Types.{ShutdownMode}
use my_server.Server.Config.{ServerConfig}
use my_server.Server.Metrics.{fetch_sub}
use my_server.Server.Parts.{ServerParts, IsFifo}
use my_server.Server.Runtime.{
  Server, start, shutdown, wait, try_pop_one, run_event, should_exit_worker, pool_size,
}
use my_server.Server.Runtime.Processing.{pipeline, run_event_lem, IsAfter}
use my_server.Server.Runtime.Machine.States.{
  Machine, Step, Inv, submits, processes, exits, starts, shuts_down, waits,
}
use my_server.Server.Runtime.Machine.Submits.{submits-Inv}

module _ (p : ServerParts) (contents : p.Queue → List p.Event) where
  module _ (fifo : IsFifo p contents) where
    -- A round of a worker, with the state it pops from.
    processed-Inv :
        (m : Machine p) (e : p.Event) (q : p.Queue) (t : Server p)
        → p.try_pop m.server.queue ≡ some (e, q)
        → IsAfter p
            (record m.server { queue = q; queued_approx = fetch_sub m.server.queued_approx })
            (pipeline p e m.server.world)
            t
        → Inv p contents m
        → Inv p contents (record m { server = t })
    processed-Inv m e q t h a v = record {
      sync = rw (a.same_depth, a.same_queue) (omega (arith, shorter, v.sync, v.small));
      small = rw a.same_queue (omega (arith, shorter, v.small));
      bound = λ on.
          rw (a.same_config, a.same_queue)
            (omega (
              arith,
              shorter,
              v.bound (
                  ap (λ (c : ServerConfig). c.execution.enable_backpressure) (sym a.same_config)
                  ∙ on),
            ));
      none_inflight = ground (arith, a.metrics, v.none_inflight);
      idle = λ z. absurd (omega (arith, ap length (v.idle z), shorter));
      serving = λ run. ground (arith, v.serving, a.same_state, a.same_stop);
      startable = λ b. v.startable (rw a.same_state at b);
    }
      where
        shorter : length (contents m.server.queue) ≡ suc (length (contents q))
        shorter = ap length (fifo.popped m.server.queue q e h)

    pub try_pop_one-some :
        (s : Server p) (e : p.Event) (t : Server p)
        → try_pop_one p s ≡ some (e, t)
        → (q : p.Queue) × (p.try_pop s.queue ≡ some (e, q))
          × (t ≡ record s { queue = q; queued_approx = fetch_sub s.queued_approx })
    unfolding try_pop_one
    try_pop_one-some s e t h = elim (Option-cases (p.try_pop s.queue)) [
      | inl z ↦ absurd (ground arith)
      | inr ((d, q), f) ↦ (q, ground arith, ground arith)
    ]

    try_pop_one-none : (s : Server p) → try_pop_one p s ≡ none → contents s.queue ≡ []
    unfolding try_pop_one
    try_pop_one-none s h = elim (Option-cases (p.try_pop s.queue)) [
      | inl z ↦ fifo.empty s.queue z
      | inr (x, f) ↦ absurd (ground arith)
    ]

    processes-Inv :
        (m : Machine p) (e : p.Event) (s : Server p)
        → 0 < m.live
        → try_pop_one p m.server ≡ some (e, s)
        → Inv p contents m
        → Inv p contents (record m { server = run_event p e s })
    processes-Inv m e s pos h v =
        let a = try_pop_one-some m.server e s h in
        rw a.2
          (processed-Inv m e a.0 _ a.1 (run_event_lem p e _ (omega (arith, v.none_inflight))) v)

    starts-Inv :
        (m : Machine p)
        → Inv p contents m
        → Inv p contents (record {
          server = (start p m.server).0;
          live = m.live + (if (start p m.server).1 then pool_size m.server.config else 0);
        })
    unfolding start
    starts-Inv m v = ground arith

    shuts_down-Inv :
        (m : Machine p) (mode : ShutdownMode)
        → Inv p contents m
        → Inv p contents (record m { server = shutdown p mode m.server })
    unfolding shutdown
    shuts_down-Inv m mode v = ground arith

    exits-Inv :
        (m : Machine p)
        → try_pop_one p m.server ≡ none
        → should_exit_worker p m.server ≡ true
        → Inv p contents m
        → Inv p contents (record m { live = m.live - 1 })
    unfolding should_exit_worker
    exits-Inv m h x v = record {
      sync = v.sync;
      small = v.small;
      bound = v.bound;
      none_inflight = v.none_inflight;
      idle = λ z. try_pop_one-none m.server h;
      serving = λ run. absurd (ground (arith, v.serving run));
      startable = λ b. omega (arith, v.startable b);
    }

    waits-Inv :
        (m : Machine p)
        → m.live ≡ 0
        → Inv p contents m
        → Inv p contents (record m { server = (wait p m.server).0 })
    unfolding wait
    waits-Inv m z v = ground arith

    -- Every step of a server with a first-in first-out queue keeps the invariant.
    pub Step-Inv : (m n : Machine p) → Step p contents m n → Inv p contents m → Inv p contents n
    Step-Inv m n (submits e room eq) v =
        subst (Inv p contents) (sym eq) (submits-Inv p contents fifo m e room v)
    Step-Inv m n (processes e s pos h eq) v =
        subst (Inv p contents) (sym eq) (processes-Inv m e s pos h v)
    Step-Inv m n (exits pos h x eq) v = subst (Inv p contents) (sym eq) (exits-Inv m h x v)
    Step-Inv m n (starts eq) v = subst (Inv p contents) (sym eq) (starts-Inv m v)
    Step-Inv m n (shuts_down mode eq) v = subst (Inv p contents) (sym eq) (shuts_down-Inv m mode v)
    Step-Inv m n (waits z eq) v = subst (Inv p contents) (sym eq) (waits-Inv m z v)
