-- ===== src/Logger/Engine/Stop.antt =====
-- LogEngine: the end of the worker, and a stop.
use my_server.Common.{
  append_nil, refl, zero, suc, if◌then◌else◌, false, suc, ◌<◌, true, ◌%◌, ℕ, ◌+◌, ◌≡◌, sym, ap, ◌∙◌,
  Option, none, some, List, [], ◌∷◌, ◌++◌, IsDistinct, arith, length, subst,
}
use my_server.Server.Metrics.{u64}
use my_server.Logger.FreeList.Order.{IsStack}
use my_server.Logger.MpscQueue.{reset, stub}
use my_server.Logger.MpscQueue.Fifo.{Holds}
use my_server.Logger.Engine.{
  reset, finish_worker, stop_worker, drain, EngineParts, LogEngine, recycle,
}
use my_server.Logger.Engine.Worker.{
  put_back, recycle-IsStack, worker_round_lem, Rounded, rests, writes,
}
use my_server.Logger.Engine.Pool.{IsWithin}
use my_server.Logger.Engine.Invariant.{submit_all, IsValid, AreStored, kept}

module _ (p : EngineParts) (first : p.World) where
  -- What a stop comes to: every envelope that was logged is written, in order, and every record is
  -- free again.
  pub record IsStopped (logged : List p.Envelope) (t : LogEngine p) : Type 0 where
    pub free : List ℕ
    pub same_world : t.world ≡ submit_all p logged first
    pub written : t.written ≡ length logged % u64
    pub enqueued : t.enqueued ≡ length logged % u64
    pub is_stack : IsStack t.freelist free
    pub whole : length free ≡ t.pool_size
    pub holds : Holds t.queue (λ a. none) []
    pub none_kept : t.pending_recycle ≡ none
    pub within : IsWithin t.pool_base (t.pool_base + t.pool_size) free
    pub positive : 0 < t.pool_base
    pub has_records : 0 < t.pool_size
    pub edge : t.allocated ≡ t.pool_base + t.pool_size
    pub halted : t.run ≡ false
    pub stub_head : t.queue.head ≡ stub

  none_stored :
      (storage : ℕ → Option p.Envelope) (es : List p.Envelope) → AreStored p storage [] es → es ≡ []
  none_stored storage [] a = refl
  none_stored storage (e ∷ es) a = absurd a

  finish_worker-IsStopped :
      (s : LogEngine p) (logged : List p.Envelope) (v : IsValid p first logged s)
      → s.run ≡ false
      → v.waiting ≡ []
      → IsStopped logged (finish_worker p s)
  unfolding finish_worker reset
  finish_worker-IsStopped s logged v rf eq = record {
    halted = rf;
    free = put_back p first s.pending_recycle v.free;
    same_world = v.same_world ∙ ap (λ r. submit_all p r first) all;
    written = v.written ∙ ap (λ (r : List p.Envelope). length r % u64) all;
    enqueued = v.enqueued;
    is_stack = r.0;
    whole = omega (arith, r.3, v.whole, ap length eq);
    holds = record {
      linked = (ground arith, refl, refl);
      distinct = (tt, tt);
      outside = λ a f. refl;
    };
    none_kept = refl;
    within = r.2;
    positive = v.positive;
    edge = v.edge;
    has_records = v.has_records;
    stub_head = refl;
  }
    where
      all : v.submitted ≡ logged
      all = sym (
          v.in_order
          ∙ ap (λ r. v.submitted ++ r)
              (none_stored s.storage v.stored
                (subst (λ ys. AreStored p s.storage ys v.stored) eq v.texts))
          ∙ append_nil v.submitted)

      r :
          IsStack
            (recycle p s.pending_recycle s.freelist)
            (put_back p first s.pending_recycle v.free)
          × IsDistinct (put_back p first s.pending_recycle v.free)
          × IsWithin s.pool_base
              (s.pool_base + s.pool_size)
              (put_back p first s.pending_recycle v.free)
          × (length (put_back p first s.pending_recycle v.free)
              ≡ length v.free + kept p s.pending_recycle)
      r =
          recycle-IsStack p first s [] v.free v.is_kept v.is_stack
            (subst (λ ys. IsDistinct (s.queue.head ∷ (ys ++ v.free))) eq v.apart)
            (subst (λ ys. IsWithin s.pool_base (s.pool_base + s.pool_size) (ys ++ v.free)) eq
              v.within)

  drain_lem :
      (fuel : ℕ) (s : LogEngine p) (logged : List p.Envelope) (v : IsValid p first logged s)
      (ws : List ℕ)
      → s.run ≡ false
      → v.waiting ≡ ws
      → length ws < fuel
      → (t : LogEngine p) × (drain p fuel s ≡ some t) × IsStopped logged t
  unfolding drain
  drain_lem zero s logged v ws rf eq h = absurd (omega arith)
  drain_lem (suc fuel) s logged v [] rf eq h =
      elim (subst (λ ys. Rounded p first logged s ys) eq (worker_round_lem p first s logged v)) [
        | rests x ↦ (finish_worker p s, rw (x, drain), finish_worker-IsStopped s logged v rf eq)
      ]
  drain_lem (suc fuel) s logged v (w ∷ ws) rf eq h =
      elim (subst (λ ys. Rounded p first logged s ys) eq (worker_round_lem p first s logged v)) [
        | writes n xs t y x z d g ↦
            let r = drain_lem fuel t logged y ws (g ∙ rf) z (omega arith) in
            (r.0, rw (x, drain) r.1, r.2)
      ]

  -- A stop of a running, valid engine, with fuel beyond the envelopes that wait, ends without a
  -- fault: every envelope that was logged has been written, oldest first, the counters of enqueued
  -- and written envelopes agree, and the whole pool is free again.
  pub stop_worker_lem :
      (fuel : ℕ) (s : LogEngine p) (logged : List p.Envelope) (v : IsValid p first logged s)
      → s.run ≡ true
      → length v.waiting < fuel
      → (t : LogEngine p) × (stop_worker p fuel s ≡ some t) × IsStopped logged t
  unfolding stop_worker
  stop_worker_lem fuel s logged v r h =
      let d = drain_lem fuel (record s { run = false }) logged halted v.waiting refl refl h in
      (d.0, ap (λ b. if b then drain p fuel (record s { run = false }) else some s) r ∙ d.1, d.2)
    where
      halted : IsValid p first logged (record s { run = false })
      halted = record {
        free = v.free;
        waiting = v.waiting;
        submitted = v.submitted;
        stored = v.stored;
        is_stack = v.is_stack;
        holds = v.holds;
        apart = v.apart;
        within = v.within;
        is_kept = v.is_kept;
        positive = v.positive;
        edge = v.edge;
        has_records = v.has_records;
        texts = v.texts;
        in_order = v.in_order;
        same_world = v.same_world;
        whole = v.whole;
        enqueued = v.enqueued;
        written = v.written;
      }
