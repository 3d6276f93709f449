-- ===== src/Server/Runtime/Machine/States.antt =====
-- Server as a whole: the steps of its callers and workers, and what holds between them.
use my_server.Common.{
  ℕ, ◌+◌, ◌-◌, ◌<◌, ◌≤◌, ◌≡◌, true, false, none, some, List, [], if◌then◌else◌, length,
}
use my_server.Server.Types.{running, ShutdownMode}
use my_server.Server.Metrics.{u64}
use my_server.Server.Parts.{ServerParts}
use my_server.Server.Runtime.{
  Server, start, shutdown, wait, try_submit, try_pop_one, run_event, should_exit_worker,
  is_startable, pool_size,
}

-- `live` workers have not left their loop.
pub record Machine (p : ServerParts) : Type 0 where
  pub server : Server p
  pub live : ℕ

module _ (p : ServerParts) (contents : p.Queue → List p.Event) where
  -- One whole call, or one whole round of a worker, with no other in between. A queue of 2 ^ 64 - 1 events does not exist; `wait` returns
  -- when every worker has left its loop.
  pub data Step (m n : Machine p) : Type 0 where
    submits :
        (e : p.Event)
        → length (contents m.server.queue) + 1 < u64
        → n ≡ record m { server = (try_submit p e m.server).0 }
        → Step m n
    processes :
        (e : p.Event) (s : Server p)
        → 0 < m.live
        → try_pop_one p m.server ≡ some (e, s)
        → n ≡ record m { server = run_event p e s }
        → Step m n
    exits :
        0 < m.live
        → try_pop_one p m.server ≡ none
        → should_exit_worker p m.server ≡ true
        → n ≡ record m { live = m.live - 1 }
        → Step m n
    starts :
        n ≡ record {
          server = (start p m.server).0;
          live = m.live + (if (start p m.server).1 then pool_size m.server.config else 0);
        }
        → Step m n
    shuts_down :
        (mode : ShutdownMode) → n ≡ record m { server = shutdown p mode m.server } → Step m n
    waits : m.live ≡ 0 → n ≡ record m { server = (wait p m.server).0 } → Step m n

  -- The depth counter is the length of the queue, within the capacity under backpressure; no event
  -- is left when no worker is; workers serve a running server.
  pub record Inv (m : Machine p) : Type 0 where
    pub sync : m.server.queued_approx ≡ length (contents m.server.queue)
    pub small : length (contents m.server.queue) < u64
    pub bound :
        m.server.config.execution.enable_backpressure ≡ true
        → length (contents m.server.queue) ≤ m.server.config.execution.queue_capacity
    pub none_inflight : m.server.metrics.inflight ≡ 0
    pub idle : m.live ≡ 0 → contents m.server.queue ≡ []
    pub serving : m.server.state ≡ running → (0 < m.live) × (m.server.stop_requested ≡ false)
    pub startable : is_startable m.server.state ≡ true → m.live ≡ 0
