-- ===== src/Server/Runtime/Machine/Submits.antt =====
-- Server::trySubmit (app/include/server/server.h) keeps the server's invariant.
use my_server.Common.{
  ◌+◌, ◌<◌, ◌≤◌, ◌≡◌, ◌⊎◌, inl, inr, sym, ap, ◌∙◌, true, List, [], ◌∷◌, arith, length,
  length-append,
}
use my_server.Server.Types.{running}
use my_server.Server.Config.{ServerConfig}
use my_server.Server.Metrics.{u64}
use my_server.Server.Parts.{ServerParts, IsFifo}
use my_server.Server.Runtime.{Server, try_submit}
use my_server.Server.Runtime.Submit.{try_submit_lem}
use my_server.Server.Runtime.Submission.{HasRoom, IsStored, IsRefused, IsSubmission}
use my_server.Server.Runtime.Machine.States.{Machine, Inv}

module _ (p : ServerParts) (contents : p.Queue → List p.Event) where
  module _ (fifo : IsFifo p contents) where
    -- What a submission does to the queue and its counter.
    record Queued (s t : Server p) : Type 0 where
      sync : t.queued_approx ≡ length (contents t.queue)
      small : length (contents t.queue) < u64
      grown :
          (t.queue ≡ s.queue)
          ⊎ ((s.state ≡ running)
              × (length (contents t.queue) ≡ length (contents s.queue) + 1)
              × HasRoom p s)

    stored-Queued :
        (s t : Server p) (e : p.Event)
        → length (contents s.queue) + 1 < u64
        → IsStored p e s t
        → s.queued_approx ≡ length (contents s.queue)
        → Queued s t
    stored-Queued s t e room st sync = record {
      sync = omega (arith, st.depth, sync, longer);
      small = omega (arith, longer);
      grown = inr (st.was_running, longer, st.had_room);
    }
      where
        longer : length (contents t.queue) ≡ length (contents s.queue) + 1
        longer =
            ap length (fifo.pushed s.queue t.queue e st.pushed)
            ∙ length-append (contents s.queue) (e ∷ [])

    refused-Queued :
        (s t : Server p) (e : p.Event)
        → IsRefused p e s t
        → length (contents s.queue) < u64
        → s.queued_approx ≡ length (contents s.queue)
        → Queued s t
    refused-Queued s t e rf small sync = record {
      sync = rw (rf.same_queue, rf.same_depth) sync;
      small = rw rf.same_queue small;
      grown = inl rf.same_queue;
    }

    submission_bound :
        (m : Machine p) (t : Server p)
        → IsSubmission p m.server t
        → Queued m.server t
        → Inv p contents m
        → m.server.config.execution.enable_backpressure ≡ true
        → length (contents t.queue) ≤ t.config.execution.queue_capacity
    submission_bound m t sub q v on = rw sub.same_config (elim q.grown [
      | inl same ↦ rw same (v.bound on)
      | inr (_, longer, room) ↦ omega (arith, longer, room on, v.sync)
    ])

    submission_idle :
        (m : Machine p) (t : Server p)
        → Queued m.server t
        → Inv p contents m
        → m.live ≡ 0
        → contents t.queue ≡ []
    submission_idle m t q v none_live = elim q.grown [
      | inl same ↦ rw same (v.idle none_live)
      | inr (run, _, _) ↦ absurd (omega (arith, (v.serving run).0, none_live))
    ]

    submission-Inv :
        (m : Machine p) (t : Server p)
        → IsSubmission p m.server t
        → Queued m.server t
        → Inv p contents m
        → Inv p contents (record m { server = t })
    submission-Inv m t sub q v = record {
      sync = q.sync;
      small = q.small;
      bound = λ h.
          submission_bound m t sub q v
            (ap (λ (c : ServerConfig). c.execution.enable_backpressure) (sym sub.same_config) ∙ h);
      none_inflight = sub.same_inflight ∙ v.none_inflight;
      idle = λ h. submission_idle m t q v h;
      serving = λ h. ground (arith, v.serving, sub.same_state, sub.same_stop);
      startable = λ h. v.startable (rw sub.same_state at h);
    }

    -- A submission keeps the invariant.
    pub submits-Inv :
        (m : Machine p) (e : p.Event)
        → length (contents m.server.queue) + 1 < u64
        → Inv p contents m
        → Inv p contents (record m { server = (try_submit p e m.server).0 })
    submits-Inv m e room v =
        submission-Inv m (try_submit p e m.server).0 (try_submit_lem p e m.server).1
          (elim (try_submit_lem p e m.server).0 [
            | inl (_, st) ↦ stored-Queued m.server _ e room st v.sync
            | inr (_, rf) ↦ refused-Queued m.server _ e rf v.small v.sync
          ])
          v
