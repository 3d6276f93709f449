-- ===== src/Server/Runtime/Submit.antt =====
-- Server::trySubmit: what it answers, counts and stores.
use my_server.Server.Runtime.Submission.{
  IsFull, HasRoom, IsSubmission, reply-IsSubmission, reply-queue, Outcomes, fire-calls,
}
use my_server.Common.{
  List, Bool-cases, leb, ◌&&◌, none, inr, inl, ◌⊎◌, Option-cases, some, ◌≢◌, ℕ, ◌+◌, ◌<◌, ◌≡◌, refl,
  sym, ap, ◌∙◌, Bool, true, false, arith,
}
use my_server.Server.Metrics.{
  on_rejected_stopped, on_accepted, on_rejected_full, fetch_add, MetricsMixin, u64,
}
use my_server.Server.Parts.{ServerParts}
use my_server.Server.Types.{created, stopping, stopped, failed}
use my_server.Server.Runtime.{
  is_running, rejected_stopped, ServerState, rejected_full, reply, accepted, running, SubmitStatus,
  event_received, HookCall, Server, push_event, admit_event, try_submit,
}

-- How many submissions the counters have seen.
abbrev pub submissions : MetricsMixin → ℕ
submissions m = m.accepted + m.rejected_full + m.rejected_stopped + m.invalid

-- No counter of submissions is at its largest value.
pub record HasCounters (m : MetricsMixin) : Type 0 where
  pub accepted : m.accepted + 1 < u64
  pub rejected_full : m.rejected_full + 1 < u64
  pub rejected_stopped : m.rejected_stopped + 1 < u64
  pub invalid : m.invalid + 1 < u64

module _ (p : ServerParts) where
  push_event-submissions :
      (e : p.Event) (s : Server p)
      → HasCounters s.metrics
      → submissions (push_event p e s).0.metrics ≡ submissions s.metrics + 1
  unfolding push_event
  push_event-submissions e s h = ground arith

  admit_event-submissions :
      (e : p.Event) (s : Server p)
      → HasCounters s.metrics
      → submissions (admit_event p e s).0.metrics ≡ submissions s.metrics + 1
  unfolding admit_event
  admit_event-submissions e s h = ground (arith, push_event-submissions e s h)

  -- Every submission is counted once, whatever becomes of it, while no counter is at its largest
  -- value.
  submissions-try_submit :
      (e : p.Event) (s : Server p)
      → HasCounters s.metrics
      → submissions (try_submit p e s).0.metrics ≡ submissions s.metrics + 1
  unfolding try_submit
  submissions-try_submit e s h =
      rw (fire-calls p s.hooks.on_event_received (event_received e) s)
        (admit_event-submissions e _ h)

  push_event_lem :
      (e : p.Event) (s : Server p)
      → s.state ≡ running
      → HasRoom p s
      → Outcomes p e s (push_event p e s) × IsSubmission p s (push_event p e s).0
  unfolding push_event
  push_event_lem e s run room = elim (Option-cases (p.try_push s.queue e)) [
    | inl z ↦
        let kept = reply-queue p on_rejected_full rejected_full s in
        rw (z, push_event)
          (
            inr (
              (λ e. cc e),
              record { why = inr (inr z); same_queue = kept.0; same_depth = kept.1 },
            ),
            reply-IsSubmission p on_rejected_full rejected_full s refl refl,
          )
    | inr (q, h) ↦
        let stored = record s { queue = q; queued_approx = fetch_add s.queued_approx } in
        let kept = reply-queue p on_accepted accepted stored in
        let later = reply-IsSubmission p on_accepted accepted stored refl refl in
        rw (h, push_event)
          (
            inl (
              refl,
              record {
                was_running = run;
                had_room = room;
                pushed = h ∙ ap some (sym kept.0);
                depth = kept.1;
              },
            ),
            record {
              same_state = later.same_state;
              same_config = later.same_config;
              same_mode = later.same_mode;
              same_stop = later.same_stop;
              same_workers = later.same_workers;
              same_world = later.same_world;
              same_inflight = later.same_inflight;
              same_error = later.same_error;
            },
          )
  ]

  refuse :
      (on : MetricsMixin → MetricsMixin) (x : SubmitStatus) (e : p.Event) (s : Server p)
      → (on s.metrics).inflight ≡ s.metrics.inflight
      → (on s.metrics).error ≡ s.metrics.error
      → x ≢ accepted
      → (s.state ≢ running) ⊎ IsFull p s ⊎ (p.try_push s.queue e ≡ none)
      → Outcomes p e s (reply p on x s) × IsSubmission p s (reply p on x s).0
  refuse on x e s keep no_error ne why =
      let kept = reply-queue p on x s in
      (
        inr (ne, record { why = why; same_queue = kept.0; same_depth = kept.1 }),
        reply-IsSubmission p on x s keep no_error,
      )

  running_lem :
      (x : ServerState)
      → (x ≡ running × (is_running x ≡ true)) ⊎ ((x ≢ running) × (is_running x ≡ false))
  running_lem created = inr (λ e. cc e, refl)
  running_lem running = inl (refl, refl)
  running_lem stopping = inr (λ e. cc e, refl)
  running_lem stopped = inr (λ e. cc e, refl)
  running_lem failed = inr (λ e. cc e, refl)

  full : Server p → Bool
  full s =
      s.config.execution.enable_backpressure
      && leb s.config.execution.queue_capacity s.queued_approx

  admit_event_lem :
      (e : p.Event) (s : Server p)
      → Outcomes p e s (admit_event p e s) × IsSubmission p s (admit_event p e s).0
  unfolding admit_event full
  admit_event_lem e s = elim (running_lem s.state) [
    | inr (stop, b) ↦
        rw (b, admit_event)
          (refuse on_rejected_stopped rejected_stopped e s refl refl (λ x. cc x) (inl stop))
    | inl (run, b) ↦ elim (Bool-cases (full s)) [
      | inl yes_full ↦
          rw (b, admit_event)
            (rw yes_full (
              refuse on_rejected_full rejected_full e s refl refl (λ x. cc x)
                (inr (inl (ground (arith, yes_full), ground (arith, yes_full))))))
      | inr not_full ↦
          rw (b, admit_event) (rw not_full (push_event_lem e s run (λ h. ground (arith, not_full))))
    ]
  ]

  -- The calls of hooks before it do not matter to a submission.
  before_calls :
      (e : p.Event) (s : Server p) (l : List (HookCall p.Event)) (r : Server p × SubmitStatus)
      → Outcomes p e (record s { calls = l }) r × IsSubmission p (record s { calls = l }) r.0
      → Outcomes p e s r × IsSubmission p s r.0
  before_calls e s l r (o, m) = (
    elim o [
      | inl (yes_x, x) ↦ inl (
        yes_x,
        record {
          was_running = x.was_running;
          had_room = x.had_room;
          pushed = x.pushed;
          depth = x.depth;
        },
      )
      | inr (not_x, x) ↦
          inr (not_x, record { why = x.why; same_queue = x.same_queue; same_depth = x.same_depth })
    ],
    record {
      same_state = m.same_state;
      same_config = m.same_config;
      same_mode = m.same_mode;
      same_stop = m.same_stop;
      same_workers = m.same_workers;
      same_world = m.same_world;
      same_inflight = m.same_inflight;
      same_error = m.same_error;
    },
  )

  pub try_submit_lem :
      (e : p.Event) (s : Server p)
      → Outcomes p e s (try_submit p e s) × IsSubmission p s (try_submit p e s).0
  unfolding try_submit
  try_submit_lem e s =
      rw (fire-calls p s.hooks.on_event_received (event_received e) s)
        (before_calls e s _ _ (admit_event_lem e _))
