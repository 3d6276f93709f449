-- ===== src/Logger/Engine/Producers/Rounds.antt =====
-- LogEngine with calls of enqueue under way: the rounds of the worker, and all steps.
use my_server.Common.{
  length-append, arith, ◌∙◌, append-NotIn_left, none, ap, inr, sym, append_assoc, subst, some,
  Option, ℕ, ◌+◌, ◌≡◌, refl, List, [], ◌∷◌, ◌++◌, IsDistinct, length,
}
use my_server.Logger.FreeList.Order.{IsStack}
use my_server.Logger.MpscQueue.{MpscQueue}
use my_server.Logger.MpscQueue.Fifo.{took, took_none, must_wait, pop_lem, Holds}
use my_server.Logger.Engine.{idle, blocked, worked, worker_round, EngineParts, LogEngine, recycle}
use my_server.Logger.Engine.Pool.{IsWithin}
use my_server.Logger.Engine.Invariant.{AreStored, update-AreStored, submit_all-append, kept}
use my_server.Logger.Engine.Worker.{put_back, recycle-IsStack, written_record, round_runs}
use my_server.Logger.Engine.Producers.{Producers, link_record}
use my_server.Logger.Engine.Producers.Invariant.{IsBusy}

module _ (p : EngineParts) (first : p.World) where
  writes-IsBusy :
      (s : Producers p) (v : IsBusy p first s) (n : ℕ) (ws : List ℕ) (e : p.Envelope)
      (es : List p.Envelope) (q : MpscQueue)
      → v.waiting ≡ n ∷ ws
      → v.stored ≡ e ∷ es
      → q.head ≡ n
      → Holds q s.pending ws
      → (t : IsBusy p first (record s { engine = written_record p first s.engine n e q }))
        × (t.waiting ≡ ws)
  writes-IsBusy s v n ws e es q eq eq' hd hold = (
    record {
      free = put_back p first s.engine.pending_recycle v.free;
      waiting = ws;
      submitted = v.submitted ++ (e ∷ []);
      stored = es;
      is_stack = r.0;
      holds = hold;
      apart =
          rw (hd, sym (append_assoc ws s.held (put_back p first s.engine.pending_recycle v.free)))
            r.1;
      within =
          rw (sym (append_assoc ws s.held (put_back p first s.engine.pending_recycle v.free)))
            r.2.2;
      is_kept = inr (ap some (sym hd), rw hd r.2.0, rw hd r.2.1);
      positive = v.positive;
      edge = v.edge;
      has_records = v.has_records;
      runs = v.runs;
      texts =
          update-AreStored p s.engine.storage n none ws es
            (append-NotIn_left n ws (s.held ++ v.free) apart_now.1.0) texts_now.1;
      in_order =
          v.in_order ∙ ap (λ r. v.submitted ++ r) eq' ∙ sym (append_assoc v.submitted (e ∷ []) es);
      same_world = ap (p.submit e) v.same_world ∙ sym (submit_all-append p v.submitted e first);
      whole = omega (arith, r.3, v.whole, ap length eq);
      enqueued = v.enqueued;
      bounded = v.bounded;
      written = omega (arith, v.written, length-append v.submitted (e ∷ []));
    },
    refl,
  )
    where
      apart_now : IsDistinct (s.engine.queue.head ∷ ((n ∷ ws) ++ (s.held ++ v.free)))
      apart_now =
          subst (λ ys. IsDistinct (s.engine.queue.head ∷ (ys ++ (s.held ++ v.free)))) eq v.apart

      texts_now : AreStored p s.engine.storage (n ∷ ws) (e ∷ es)
      texts_now =
          subst (λ ys. AreStored p s.engine.storage (n ∷ ws) ys) eq'
            (subst (λ ys. AreStored p s.engine.storage ys v.stored) eq v.texts)

      r :
          IsStack
            (recycle p s.engine.pending_recycle s.engine.freelist)
            (put_back p first s.engine.pending_recycle v.free)
          × IsDistinct ((n ∷ (ws ++ s.held)) ++ put_back p first s.engine.pending_recycle v.free)
          × IsWithin s.engine.pool_base
              (s.engine.pool_base + s.engine.pool_size)
              ((n ∷ (ws ++ s.held)) ++ put_back p first s.engine.pending_recycle v.free)
          × (length (put_back p first s.engine.pending_recycle v.free)
              ≡ length v.free + kept p s.engine.pending_recycle)
      r =
          recycle-IsStack p first s.engine (n ∷ (ws ++ s.held)) v.free v.is_kept v.is_stack
            (rw (append_assoc ws s.held v.free) apart_now)
            (rw (append_assoc ws s.held v.free) (
              subst
                (λ ys.
                  IsWithin s.engine.pool_base (s.engine.pool_base + s.engine.pool_size)
                    (ys ++ (s.held ++ v.free)))
                eq v.within))

  -- What a round comes to, with the records that wait: nothing to do, or the oldest envelope is
  -- written, or the link of its record is still to be written, and then the round waits for it.
  pub data Rounded (s : Producers p) : List ℕ → Type 0 where
    rests : worker_round p s.engine ≡ idle → Rounded s []
    writes :
        (n : ℕ) (ws : List ℕ) (t : LogEngine p) (v : IsBusy p first (record s { engine = t }))
        → worker_round p s.engine ≡ worked t
        → v.waiting ≡ ws
        → Rounded s (n ∷ ws)
    waits :
        (n : ℕ) (ws : List ℕ) (t : LogEngine p)
        → worker_round p s.engine ≡ blocked
        → s.pending s.engine.queue.head ≡ some n
        → worker_round p (link_record p s.engine.queue.head n s.engine) ≡ worked t
        → Rounded s (n ∷ ws)

  oldest_stored :
      (storage : ℕ → Option p.Envelope) (n : ℕ) (ws : List ℕ) (es : List p.Envelope)
      → AreStored p storage (n ∷ ws) es
      → (e : p.Envelope) × (rest : List p.Envelope) × (es ≡ e ∷ rest) × (storage n ≡ some e)
  oldest_stored storage n ws [] a = absurd a
  oldest_stored storage n ws (e ∷ es) a = (e, es, refl, a.0)

  -- While calls of enqueue are under way, a round of the worker never touches a record that it must
  -- not: it rests exactly when no envelope waits, and otherwise it writes the oldest one, or waits for
  -- the call that has exchanged the tail for the oldest record and not linked it; once that call has
  -- written its link, a round writes the envelope.
  pub busy_round_lem : (s : Producers p) (v : IsBusy p first s) → Rounded s v.waiting
  unfolding worker_round link_record
  busy_round_lem s v =
      elim (pop_lem s.engine.queue s.pending v.waiting v.holds)
          as (λ ys z. v.waiting ≡ ys → Rounded s ys) [
            | took_none x y ↦ λ k. rests (rw (x, worker_round))
            | took n ws q x b hd hold ↦ λ k.
                let (e, es, k', a) =
                  oldest_stored s.engine.storage n ws v.stored
                    (subst (λ ys. AreStored p s.engine.storage ys v.stored) k v.texts) in
                let w = writes-IsBusy s v n ws e es q k k' hd hold in
                writes n ws (written_record p first s.engine n e q) w.0
                  (round_runs p first s.engine n e q x a) w.1
            | must_wait n ws q x b y z ↦ λ k.
                let (e, es, k', a) =
                  oldest_stored s.engine.storage n ws v.stored
                    (subst (λ ys. AreStored p s.engine.storage ys v.stored) k v.texts) in
                waits n ws
                  (written_record p first (link_record p s.engine.queue.head n s.engine) n e q)
                  (rw (x, worker_round)) y
                  (round_runs p first (link_record p s.engine.queue.head n s.engine) n e q z a)
          ]
        refl
