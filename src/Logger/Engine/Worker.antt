-- ===== src/Logger/Engine/Worker.antt =====
-- LogEngine: the rounds of the worker, and its end.
use my_server.Common.{
  refl, ℕ, ◌+◌, ◌≡◌, inl, inr, sym, ap, ◌∙◌, Option, none, some, List, [], ◌∷◌, ◌++◌, IsDistinct,
  arith, length, length-append, update, append_assoc, insert-IsDistinct, append-NotIn_left,
  append-NotIn_right, subst,
}
use my_server.Server.Metrics.{fetch_add}
use my_server.Logger.FreeList.Order.{IsStack, push-IsStack}
use my_server.Logger.MpscQueue.{MpscQueue}
use my_server.Logger.MpscQueue.Fifo.{took, took_none, must_wait, pop_lem, Holds}
use my_server.Logger.Engine.{
  worked, popped, idle, pop, write_record, worker_round, EngineParts, LogEngine, recycle,
}
use my_server.Logger.Engine.Pool.{insert-IsWithin, IsWithin}
use my_server.Logger.Engine.Invariant.{
  IsValid, AreStored, update-AreStored, submit_all-append, kept, IsKept,
}

module _ (p : EngineParts) (first : p.World) where
  -- The list that the kept record is put back to.
  abbrev pub put_back : Option ℕ → List ℕ → List ℕ
  put_back none xs = xs
  put_back (some r) xs = r ∷ xs

  pub recycle-IsStack :
      (s : LogEngine p) (ws xs : List ℕ)
      → IsKept p s
      → IsStack s.freelist xs
      → IsDistinct (s.queue.head ∷ (ws ++ xs))
      → IsWithin s.pool_base (s.pool_base + s.pool_size) (ws ++ xs)
      → IsStack (recycle p s.pending_recycle s.freelist) (put_back s.pending_recycle xs)
        × IsDistinct (ws ++ put_back s.pending_recycle xs)
        × IsWithin s.pool_base (s.pool_base + s.pool_size) (ws ++ put_back s.pending_recycle xs)
        × (length (put_back s.pending_recycle xs) ≡ length xs + kept p s.pending_recycle)
  recycle-IsStack s ws xs (inl (h, k)) st (f, d) w = rw k (st, d, w, omega arith)
  recycle-IsStack s ws xs (inr (k, a, b)) st (f, d) w = rw k (
    push-IsStack s.queue.head s.freelist xs (append-NotIn_right s.queue.head ws xs f) st,
    insert-IsDistinct s.queue.head ws xs f d,
    insert-IsWithin s.pool_base (s.pool_base + s.pool_size) s.queue.head ws xs a b w,
    omega arith,
  )

  -- The state after the worker took record `n` and wrote what it holds.
  abbrev pub written_record : LogEngine p → ℕ → p.Envelope → MpscQueue → LogEngine p
  written_record s n e q = record s {
    queue = q;
    freelist = recycle p s.pending_recycle s.freelist;
    storage = update s.storage n none;
    written = fetch_add s.written;
    pending_recycle = some n;
    world = p.submit e s.world;
  }

  write_record_lem :
      (s : LogEngine p) (logged : List p.Envelope) (v : IsValid p first logged s) (n : ℕ)
      (ws : List ℕ) (e : p.Envelope) (es : List p.Envelope) (q : MpscQueue)
      → v.waiting ≡ n ∷ ws
      → v.stored ≡ e ∷ es
      → q.head ≡ n
      → Holds q (λ a. none) ws
      → (t : IsValid p first logged (written_record s n e q)) × (t.waiting ≡ ws)
  write_record_lem s logged v n ws e es q eq eq' hd hold = (
    record {
      free = put_back s.pending_recycle v.free;
      waiting = ws;
      submitted = v.submitted ++ (e ∷ []);
      stored = es;
      is_stack = r.0;
      holds = hold;
      apart = rw hd r.1;
      within = r.2.2;
      is_kept = inr (ap some (sym hd), rw hd r.2.0, rw hd r.2.1);
      positive = v.positive;
      edge = v.edge;
      has_records = v.has_records;
      texts =
          update-AreStored p s.storage n none ws es (append-NotIn_left n ws v.free apart_now.1.0)
            texts_now.1;
      in_order =
          v.in_order ∙ ap (λ r. v.submitted ++ r) eq' ∙ sym (append_assoc v.submitted (e ∷ []) es);
      same_world = ap (p.submit e) v.same_world ∙ sym (submit_all-append p v.submitted e first);
      whole = omega (arith, r.3, v.whole, ap length eq);
      enqueued = v.enqueued;
      written = omega (arith, v.written, length-append v.submitted (e ∷ []));
    },
    refl,
  )
    where
      apart_now : IsDistinct (s.queue.head ∷ ((n ∷ ws) ++ v.free))
      apart_now = subst (λ ys. IsDistinct (s.queue.head ∷ (ys ++ v.free))) eq v.apart

      texts_now : AreStored p s.storage (n ∷ ws) (e ∷ es)
      texts_now =
          subst (λ ys. AreStored p s.storage (n ∷ ws) ys) eq'
            (subst (λ ys. AreStored p s.storage ys v.stored) eq v.texts)

      r :
          IsStack (recycle p s.pending_recycle s.freelist) (put_back s.pending_recycle v.free)
          × IsDistinct ((n ∷ ws) ++ put_back s.pending_recycle v.free)
          × IsWithin s.pool_base
              (s.pool_base + s.pool_size)
              ((n ∷ ws) ++ put_back s.pending_recycle v.free)
          × (length (put_back s.pending_recycle v.free) ≡ length v.free + kept p s.pending_recycle)
      r = recycle-IsStack s (n ∷ ws) v.free v.is_kept v.is_stack apart_now (
          subst (λ ys. IsWithin s.pool_base (s.pool_base + s.pool_size) (ys ++ v.free)) eq v.within)

  -- What a round comes to: nothing to do, or the oldest envelope is written.
  pub data Rounded (logged : List p.Envelope) (s : LogEngine p) : List ℕ → Type 0 where
    rests : worker_round p s ≡ idle → Rounded logged s []
    writes :
        (n : ℕ) (ws : List ℕ) (t : LogEngine p) (v : IsValid p first logged t)
        → worker_round p s ≡ worked t
        → v.waiting ≡ ws
        → t.dropped ≡ s.dropped
        → t.run ≡ s.run
        → Rounded logged s (n ∷ ws)

  pub round_runs :
      (s : LogEngine p) (n : ℕ) (e : p.Envelope) (q : MpscQueue)
      → pop s.queue ≡ popped n q
      → s.storage n ≡ some e
      → worker_round p s ≡ worked (written_record s n e q)
  unfolding worker_round write_record
  round_runs s n e q h k = rw (h, worker_round) (rw (k, write_record))

  -- A round of the worker on a valid engine never touches a record that it must not: it finds the
  -- queue empty exactly when no envelope waits, and otherwise writes the oldest envelope, puts the
  -- record that it kept on the free list, and leaves the engine valid.
  pub worker_round_lem :
      (s : LogEngine p) (logged : List p.Envelope) (v : IsValid p first logged s)
      → Rounded logged s v.waiting
  unfolding worker_round
  worker_round_lem s logged v =
      elim (pop_lem s.queue (λ a. none) v.waiting v.holds)
          as (λ ys z. v.waiting ≡ ys → Rounded logged s ys) [
            | took_none x y ↦ λ k. rests (rw (x, worker_round))
            | took n ws q x b hd hold ↦ λ k. write_oldest n ws q x hd hold k v.stored refl
            | must_wait n ws q x b y z ↦ λ k. absurd (cc y)
          ]
        refl
    where
      write_oldest :
          (n : ℕ) (ws : List ℕ) (q : MpscQueue)
          → pop s.queue ≡ popped n q
          → q.head ≡ n
          → Holds q (λ a. none) ws
          → v.waiting ≡ n ∷ ws
          → (es : List p.Envelope) → v.stored ≡ es
          → Rounded logged s (n ∷ ws)
      write_oldest n ws q x hd hold k [] z = absurd (
          subst (λ ys. AreStored p s.storage ys []) k
            (subst (λ ys. AreStored p s.storage v.waiting ys) z v.texts))
      write_oldest n ws q x hd hold k (e ∷ es) z =
          let texts =
            subst (λ ys. AreStored p s.storage ys (e ∷ es)) k
              (subst (λ ys. AreStored p s.storage v.waiting ys) z v.texts) in
          let w = write_record_lem s logged v n ws e es q k z hd hold in
          writes n ws (written_record s n e q) w.0 (round_runs s n e q x texts.0) w.1 refl refl
