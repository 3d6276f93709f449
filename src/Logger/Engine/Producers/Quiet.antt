-- ===== src/Logger/Engine/Producers/Quiet.antt =====
-- LogEngine with calls of enqueue under way: any interleaving of them, and a stop after them.
use my_server.Logger.Engine.Pool.{IsWithin}
use my_server.Logger.MpscQueue.Fifo.{Holds}
use my_server.Common.{
  ◌+◌, ◌++◌, IsDistinct, List, fun_ext, ap, arith, ◌∷◌, ◌∙◌, length, none, Option, [], subst, sym,
  some, ℕ, suc, ◌≡◌, refl,
}
use my_server.Logger.FreeList.Order.{IsStack, try_pop_lem, took, took_none}
use my_server.Logger.Engine.{
  init_pool_and_queue, new, FreeList, fetch_add, ensure_running, EngineParts, LogEngine,
  worker_round, worked, stop_worker,
}
use my_server.Logger.Engine.Invariant.{IsValid}
use my_server.Logger.Engine.Life.{worked_same}
use my_server.Logger.Engine.Order.{start-IsValid}
use my_server.Logger.Engine.Stop.{stop_worker_lem, IsStopped}
use my_server.Logger.Engine.Producers.{
  try_pop, Producers, Step, Reach, here, next, acquires, drops, exchanges, links, counts, works,
}
use my_server.Logger.Engine.Producers.Invariant.{
  IsBusy, acquires-IsBusy, exchanges-IsBusy, links-IsBusy, counts-IsBusy,
}
use my_server.Logger.Engine.Producers.Rounds.{busy_round_lem, rests, writes, waits}

module _ (p : EngineParts) (first : p.World) where
  drops-IsBusy :
      (s : Producers p)
      → IsBusy p first s
      → IsBusy p first
          (record s { engine = record (s.engine) { dropped = fetch_add s.engine.dropped } })
  drops-IsBusy s v = record {
    free = v.free;
    waiting = v.waiting;
    submitted = v.submitted;
    stored = v.stored;
    is_stack = v.is_stack;
    holds = v.holds;
    apart = v.apart;
    within = v.within;
    is_kept = v.is_kept;
    positive = v.positive;
    has_records = v.has_records;
    edge = v.edge;
    runs = v.runs;
    texts = v.texts;
    in_order = v.in_order;
    same_world = v.same_world;
    whole = v.whole;
    enqueued = v.enqueued;
    bounded = v.bounded;
    written = v.written;
  }

  taken_same :
      (a b : ℕ) (m n : FreeList) (o : Option (ℕ × FreeList))
      → o ≡ some (a, m)
      → o ≡ some (b, n)
      → (a ≡ b) × (m ≡ n)
  taken_same a b m n o h k = ground arith

  acquired-IsBusy :
      (s : Producers p) (rec : ℕ) (l : FreeList) (v : IsBusy p first s)
      → try_pop s.engine.freelist ≡ some (rec, l)
      → IsBusy p first
          (record s { engine = record (s.engine) { freelist = l }; held = rec ∷ s.held })
  acquired-IsBusy s rec l v h =
      elim (try_pop_lem s.engine.freelist v.free v.is_stack)
          as (λ ys z.
            v.free ≡ ys
            → IsBusy p first
                (record s { engine = record (s.engine) { freelist = l }; held = rec ∷ s.held })) [
                  | took_none x y ↦ λ k. absurd (cc (sym x ∙ h))
                  | took c xs r x y st ↦ λ k.
                      acquires-IsBusy p first s rec l xs v
                        (k
                          ∙ ap (λ a. a ∷ xs)
                              (taken_same c rec r l (try_pop s.engine.freelist) x h).0)
                        (subst (λ m. IsStack m xs)
                          (taken_same c rec r l (try_pop s.engine.freelist) x h).1 st)
                ]
        refl

  worked-IsBusy :
      (s : Producers p) (e : LogEngine p) (v : IsBusy p first s)
      → worker_round p s.engine ≡ worked e
      → IsBusy p first (record s { engine = e })
  worked-IsBusy s e v h =
      elim (busy_round_lem p first s v) as (λ ys z. IsBusy p first (record s { engine = e })) [
        | rests x ↦ absurd (cc (sym x ∙ h))
        | writes n ws t w x k ↦
            subst (λ (a : LogEngine p). IsBusy p first (record s { engine = a }))
              (worked_same p first t e (worker_round p s.engine) x h) w
        | waits n ws t x y z ↦ absurd (cc (sym x ∙ h))
      ]

  Step-IsBusy : (s t : Producers p) → Step p s t → IsBusy p first s → IsBusy p first t
  Step-IsBusy s t (acquires rec l h e) v =
      subst (IsBusy p first) (sym e) (acquired-IsBusy s rec l v h)
  Step-IsBusy s t (drops h e) v = subst (IsBusy p first) (sym e) (drops-IsBusy s v)
  Step-IsBusy s t (exchanges rec before after env h e) v =
      subst (IsBusy p first) (sym e) (exchanges-IsBusy p first s rec before after env v h)
  Step-IsBusy s t (links prev rec h e) v =
      subst (IsBusy p first) (sym e) (links-IsBusy p first s prev rec v h)
  Step-IsBusy s t (counts k h e) v = subst (IsBusy p first) (sym e) (counts-IsBusy p first s k v h)
  Step-IsBusy s t (works a h e) v = subst (IsBusy p first) (sym e) (worked-IsBusy s a v h)

  -- However the parts of any number of calls of enqueue and the rounds of the worker interleave, from
  -- the first start on: every record is free, or held by one call, or queued, or kept by the worker,
  -- none twice, and all are in the pool; what the worker submitted, then what waits, is what was
  -- logged, in the order of the exchanges.
  pub Reach-IsBusy : {s : Producers p} → Reach p first s → IsBusy p first s
  unfolding ensure_running new init_pool_and_queue
  Reach-IsBusy here =
      let v = start-IsValid p first in
      record {
        free = v.free;
        waiting = v.waiting;
        submitted = v.submitted;
        stored = v.stored;
        is_stack = v.is_stack;
        holds = v.holds;
        apart = v.apart;
        within = v.within;
        is_kept = v.is_kept;
        positive = v.positive;
        has_records = v.has_records;
        edge = v.edge;
        runs = refl;
        texts = v.texts;
        in_order = v.in_order;
        same_world = v.same_world;
        whole = omega (arith, v.whole);
        enqueued = refl;
        bounded = omega arith;
        written = v.written;
      }
  Reach-IsBusy (next {s = s} {t = t} r m) = Step-IsBusy s t m (Reach-IsBusy r)

  -- No call is under way.
  pub record IsQuiet (s : Producers p) : Type 0 where
    pub none_held : s.held ≡ []
    pub none_pending : (a : ℕ) → s.pending a ≡ none
    pub all_counted : s.uncounted ≡ 0

  quiet-IsValid :
      (s : Producers p) → IsBusy p first s → IsQuiet s → IsValid p first s.logged s.engine
  quiet-IsValid s v q = record {
    free = v.free;
    waiting = v.waiting;
    submitted = v.submitted;
    stored = v.stored;
    is_stack = v.is_stack;
    holds =
        subst (λ (m : ℕ → Option ℕ). Holds s.engine.queue m v.waiting) (fun_ext q.none_pending)
          v.holds;
    apart =
        subst (λ (hs : List ℕ). IsDistinct (s.engine.queue.head ∷ (v.waiting ++ (hs ++ v.free))))
          q.none_held v.apart;
    within =
        subst
          (λ (hs : List ℕ).
            IsWithin s.engine.pool_base (s.engine.pool_base + s.engine.pool_size)
              (v.waiting ++ (hs ++ v.free)))
          q.none_held v.within;
    is_kept = v.is_kept;
    positive = v.positive;
    has_records = v.has_records;
    edge = v.edge;
    texts = v.texts;
    in_order = v.in_order;
    same_world = v.same_world;
    whole = omega (arith, v.whole, ap length q.none_held);
    enqueued = omega (arith, v.enqueued, v.bounded, q.all_counted);
    written = v.written;
  }

  -- While each call of try_pop and push on the free list takes effect at once, as it does where one
  -- thread logs and may not where several do: after any interleaving of the other parts of calls of
  -- enqueue with rounds of the worker, in which every call that began has ended, a stop, with some fuel, returns: every envelope that was queued has been submitted once,
  -- in the order of the exchanges, both counters agree, and the whole pool is free again.
  pub producers_end :
      (s : Producers p)
      → Reach p first s
      → IsQuiet s
      → (fuel : ℕ) × (t : LogEngine p) × (stop_worker p fuel s.engine ≡ some t)
        × IsStopped p first s.logged t
  producers_end s r q =
      let b = Reach-IsBusy r in
      let v = quiet-IsValid s b q in
      let r =
        stop_worker_lem p first (suc (length v.waiting)) s.engine s.logged v b.runs (omega arith) in
      (suc (length v.waiting), r.0, r.1, r.2)
