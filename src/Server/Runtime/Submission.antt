-- ===== src/Server/Runtime/Submission.antt =====
-- Server::trySubmit: what a submission comes to.
use my_server.Common.{
  ◌∷◌, if◌then◌else◌, none, ◌≤◌, ◌⊎◌, some, ◌≢◌, ◌<◌, ◌≡◌, refl, Bool, true, false,
}
use my_server.Server.Metrics.{fetch_add, MetricsMixin}
use my_server.Server.Parts.{ServerParts}
use my_server.Server.Runtime.{
  submit_result, reply, accepted, running, SubmitStatus, fire, HookCall, Server,
}

module _ (p : ServerParts) where
  -- A hook's call adds to the log of calls and leaves the rest alone.
  pub fire-calls :
      (b : Bool) (c : HookCall p.Event) (s : Server p)
      → fire p b c s ≡ record s { calls = (if b then c ∷ s.calls else s.calls) }
  fire-calls true c s = refl
  fire-calls false c s = refl

  -- The queue has room, as `trySubmit` sees it.
  abbrev pub HasRoom : Server p → Type 0
  HasRoom s =
      s.config.execution.enable_backpressure ≡ true
      → s.queued_approx < s.config.execution.queue_capacity

  -- Backpressure is on, and the depth has reached the capacity.
  abbrev pub IsFull : Server p → Type 0
  IsFull s =
      (s.config.execution.enable_backpressure ≡ true)
      × (s.config.execution.queue_capacity ≤ s.queued_approx)

  -- The event `e` was stored.
  pub record IsStored (e : p.Event) (s t : Server p) : Type 0 where
    pub was_running : s.state ≡ running
    pub had_room : HasRoom s
    pub pushed : p.try_push s.queue e ≡ some t.queue
    pub depth : t.queued_approx ≡ fetch_add s.queued_approx

  -- The event was turned away: the server does not run, or is full under backpressure, or the queue
  -- has no room.
  pub record IsRefused (e : p.Event) (s t : Server p) : Type 0 where
    pub why : (s.state ≢ running) ⊎ IsFull s ⊎ (p.try_push s.queue e ≡ none)
    pub same_queue : t.queue ≡ s.queue
    pub same_depth : t.queued_approx ≡ s.queued_approx

  -- A submission leaves the rest of the server alone.
  pub record IsSubmission (s t : Server p) : Type 0 where
    pub same_state : t.state ≡ s.state
    pub same_config : t.config ≡ s.config
    pub same_mode : t.shutdown_mode ≡ s.shutdown_mode
    pub same_stop : t.stop_requested ≡ s.stop_requested
    pub same_workers : t.workers ≡ s.workers
    pub same_world : t.world ≡ s.world
    pub same_inflight : t.metrics.inflight ≡ s.metrics.inflight
    pub same_error : t.metrics.error ≡ s.metrics.error

  pub reply-IsSubmission :
      (on : MetricsMixin → MetricsMixin) (x : SubmitStatus) (s : Server p)
      → (on s.metrics).inflight ≡ s.metrics.inflight
      → (on s.metrics).error ≡ s.metrics.error
      → IsSubmission s (reply p on x s).0
  reply-IsSubmission on x s keep no_error =
      rw
        (fire-calls s.hooks.on_submit_result (submit_result x)
          (record s { metrics = on s.metrics }))
        (record {
          same_state = refl;
          same_config = refl;
          same_mode = refl;
          same_stop = refl;
          same_workers = refl;
          same_world = refl;
          same_inflight = keep;
          same_error = no_error;
        })

  pub reply-queue :
      (on : MetricsMixin → MetricsMixin) (x : SubmitStatus) (s : Server p)
      → ((reply p on x s).0.queue ≡ s.queue) × ((reply p on x s).0.queued_approx ≡ s.queued_approx)
  reply-queue on x s =
      rw
        (fire-calls s.hooks.on_submit_result (submit_result x)
          (record s { metrics = on s.metrics }))
        (refl, refl)

  -- What a submission comes to.
  abbrev pub Outcomes : p.Event → Server p → Server p × SubmitStatus → Type 0
  Outcomes e s (t, x) = ((x ≡ accepted) × IsStored e s t) ⊎ ((x ≢ accepted) × IsRefused e s t)
