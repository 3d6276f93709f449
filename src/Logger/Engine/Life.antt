-- ===== src/Logger/Engine/Life.antt =====
-- LogEngine from its first start to a stop, over any sequence of enqueues and rounds of the worker.
use my_server.Common.{
  ℕ, suc, ◌≡◌, ◌≢◌, refl, sym, ◌∙◌, subst, Option, none, some, List, [], ◌∷◌, ◌++◌, arith, length,
  true,
}
use my_server.Server.Metrics.{fetch_add}
use my_server.Logger.FreeList.Order.{IsStack}
use my_server.Logger.Engine.{
  init_pool_and_queue, Round, EngineParts, LogEngine, new, ensure_running, enqueue, worker_round,
  worked, stop_worker,
}
use my_server.Logger.Engine.Invariant.{IsValid}
use my_server.Logger.Engine.Order.{start-IsValid, enqueue_lem, drops, logs}
use my_server.Logger.Engine.Worker.{worker_round_lem, rests, writes}
use my_server.Logger.Engine.Stop.{stop_worker_lem, IsStopped}

module _ (p : EngineParts) (first : p.World) where
  -- The engine after some enqueues and rounds, with the envelopes that were not dropped. An enqueue
  -- drops its envelope when no record is free, which the free list shows.
  pub data Life : List p.Envelope → LogEngine p → Type 0 where
    started : Life [] (ensure_running p (new p first))
    accepts :
        {logged : List p.Envelope} {s t : LogEngine p} (e : p.Envelope)
        → Life logged s
        → (s.freelist.head ≢ none)
        → enqueue p e s ≡ some t
        → Life (logged ++ (e ∷ [])) t
    refuses :
        {logged : List p.Envelope} {s t : LogEngine p} (e : p.Envelope)
        → Life logged s
        → s.freelist.head ≡ none
        → enqueue p e s ≡ some t
        → Life logged t
    works :
        {logged : List p.Envelope} {s t : LogEngine p}
        → Life logged s
        → worker_round p s ≡ worked t
        → Life logged t

  -- A valid engine that runs.
  pub record IsAlive (logged : List p.Envelope) (s : LogEngine p) : Type 0 where
    pub valid : IsValid p first logged s
    pub runs : s.run ≡ true

  some_same : (s t : LogEngine p) (o : Option (LogEngine p)) → o ≡ some s → o ≡ some t → s ≡ t
  some_same s t o h k = ground arith

  accepts-IsAlive :
      (logged : List p.Envelope) (s t : LogEngine p) (e : p.Envelope)
      → IsAlive logged s
      → s.freelist.head ≢ none
      → enqueue p e s ≡ some t
      → IsAlive (logged ++ (e ∷ [])) t
  accepts-IsAlive logged s t e a ne h =
      elim (enqueue_lem p first s logged e a.valid a.runs)
          as (λ ys z. a.valid.free ≡ ys → IsAlive (logged ++ (e ∷ [])) t) [
            | drops x ↦ λ k. absurd (ne (subst (IsStack s.freelist) k a.valid.is_stack).stacked)
            | logs n xs u x v d r ↦ λ k.
                subst (IsAlive (logged ++ (e ∷ []))) (some_same u t (enqueue p e s) x h)
                  (record { valid = v; runs = r ∙ a.runs })
          ]
        refl

  refuses-IsAlive :
      (logged : List p.Envelope) (s t : LogEngine p) (e : p.Envelope)
      → IsAlive logged s
      → s.freelist.head ≡ none
      → enqueue p e s ≡ some t
      → IsAlive logged t
  refuses-IsAlive logged s t e a z h =
      elim (enqueue_lem p first s logged e a.valid a.runs)
          as (λ ys z. a.valid.free ≡ ys → IsAlive logged t) [
            | drops x ↦ λ k.
                subst (IsAlive logged)
                  (some_same (record s { dropped = fetch_add s.dropped }) t (enqueue p e s) x h)
                  (record { valid = with_dropped; runs = a.runs })
            | logs n xs u x v d r ↦
                λ k. absurd (cc (sym z ∙ (subst (IsStack s.freelist) k a.valid.is_stack).stacked.0))
          ]
        refl
    where
      with_dropped : IsValid p first logged (record s { dropped = fetch_add s.dropped })
      with_dropped =
          let v = a.valid in
          record {
            free = v.free;
            waiting = v.waiting;
            submitted = v.submitted;
            stored = v.stored;
            is_stack = v.is_stack;
            holds = v.holds;
            apart = v.apart;
            within = v.within;
            is_kept = v.is_kept;
            positive = v.positive;
            edge = v.edge;
            has_records = v.has_records;
            texts = v.texts;
            in_order = v.in_order;
            same_world = v.same_world;
            whole = v.whole;
            enqueued = v.enqueued;
            written = v.written;
          }

  pub worked_same : (s t : LogEngine p) (o : Round p) → o ≡ worked s → o ≡ worked t → s ≡ t
  worked_same s t o h k = ground arith

  works-IsAlive :
      (logged : List p.Envelope) (s t : LogEngine p)
      → IsAlive logged s
      → worker_round p s ≡ worked t
      → IsAlive logged t
  works-IsAlive logged s t a h =
      elim (worker_round_lem p first s logged a.valid) as (λ ys z. IsAlive logged t) [
        | rests x ↦ absurd (cc (sym x ∙ h))
        | writes n ws u v x k d r ↦
            subst (IsAlive logged) (worked_same u t (worker_round p s) x h)
              (record { valid = v; runs = r ∙ a.runs })
      ]

  pub Life-IsAlive : {logged : List p.Envelope} {s : LogEngine p} → Life logged s → IsAlive logged s
  unfolding ensure_running new init_pool_and_queue
  Life-IsAlive started = record { valid = start-IsValid p first; runs = refl }
  Life-IsAlive (accepts {logged = l} {s = s} {t = t} e a ne h) =
      accepts-IsAlive l s t e (Life-IsAlive a) ne h
  Life-IsAlive (refuses {logged = l} {s = s} {t = t} e a z h) =
      refuses-IsAlive l s t e (Life-IsAlive a) z h
  Life-IsAlive (works {logged = l} {s = s} {t = t} a h) = works-IsAlive l s t (Life-IsAlive a) h

  -- After any sequence of enqueues and rounds of the worker from the first start on, an enqueue never
  -- faults, and a stop, with some fuel, ends without a fault: the envelopes that found a free record
  -- have each been submitted once, in the order of their enqueues, and no others; the whole pool is
  -- free again.
  pub stop_submits_all :
      (logged : List p.Envelope) (s : LogEngine p)
      → Life logged s
      → ((e : p.Envelope) → (t : LogEngine p) × (enqueue p e s ≡ some t))
        × ((fuel : ℕ) × (t : LogEngine p) × (stop_worker p fuel s ≡ some t)
            × IsStopped p first logged t)
  stop_submits_all logged s l =
      let a = Life-IsAlive l in
      let fuel = suc (length a.valid.waiting) in
      let r = stop_worker_lem p first fuel s logged a.valid a.runs (omega arith) in
      (λ e. enqueue_returns a e, (fuel, r.0, r.1, r.2))
    where
      enqueue_returns :
          IsAlive logged s → (e : p.Envelope) → (t : LogEngine p) × (enqueue p e s ≡ some t)
      enqueue_returns a e =
          elim (enqueue_lem p first s logged e a.valid a.runs)
            as (λ ys z. (t : LogEngine p) × (enqueue p e s ≡ some t)) [
              | drops x ↦ (_, x)
              | logs n xs u x v d r ↦ (u, x)
            ]
