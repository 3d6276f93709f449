-- ===== src/Logger/Engine/Order.antt =====
-- LogEngine: what an enqueue and a round of the worker make of a valid engine.
use my_server.Logger.FreeList.{try_pop, push}
use my_server.Common.{
  subst, append_nil, ℕ, ◌+◌, ◌<◌, ◌≤◌, ◌≡◌, inl, refl, sym, ap, ◌∙◌, some, List, [], ◌∷◌, ◌++◌,
  NotIn, IsDistinct, arith, length, length-append, update, append_assoc, middle-NotIn,
  append-NotIn_right, subst, true,
}
use my_server.Server.Metrics.{fetch_add}
use my_server.Logger.FreeList
use my_server.Logger.FreeList.Order.{new-IsStack, IsStack, try_pop_lem, took, took_none}
use my_server.Logger.MpscQueue
use my_server.Logger.MpscQueue.{stub, pop, popped}
use my_server.Logger.MpscQueue.Fifo.{new-head, new-Holds, push-Holds, push-head}
use my_server.Logger.Engine.{
  push_range, FreeList, EngineParts, LogEngine, enqueue, store_record, ensure_running,
  init_pool_and_queue, new, is_live,
}
use my_server.Logger.Engine.Pool.{IsWithin, IsWithin-below, push_range-IsStack}
use my_server.Logger.Engine.Invariant.{IsValid, append-AreStored}

module _ (p : EngineParts) (first : p.World) where
  -- A started engine has its whole pool free.
  pub start-IsValid : IsValid p first [] (ensure_running p (new p first))
  unfolding ensure_running new init_pool_and_queue
  start-IsValid =
      let r = push_range-IsStack 1024 1 1 FreeList.new [] new-IsStack (omega arith) tt in
      let stack = subst (IsStack (push_range 1024 1 FreeList.new)) (append_nil r.0) r.1 in
      record {
        free = r.0;
        waiting = [];
        submitted = [];
        stored = [];
        is_stack = stack;
        holds = new-Holds;
        apart = (rw new-head (IsWithin-below 1 1025 0 r.0 r.2 (omega arith)), stack.distinct);
        within = r.2;
        is_kept = inl (new-head, refl);
        positive = omega arith;
        edge = refl;
        has_records = omega arith;
        texts = tt;
        in_order = refl;
        same_world = refl;
        whole = omega (arith, r.3);
        enqueued = refl;
        written = refl;
      }

  pub in_pool :
      (s : LogEngine p) (a : ℕ)
      → s.pool_base ≤ a
      → a < s.pool_base + s.pool_size
      → is_live p s a ≡ true
  in_pool s a h k = ground arith

  -- The record that an enqueue takes is apart from the queue, and in the pool.
  pub IsWithin-middle :
      (lo hi h : ℕ) (xs ys : List ℕ) → IsWithin lo hi (xs ++ (h ∷ ys)) → (lo ≤ h) × (h < hi)
  IsWithin-middle lo hi h [] ys (a, b, w) = (a, b)
  IsWithin-middle lo hi h (x ∷ xs) ys (a, b, w) = IsWithin-middle lo hi h xs ys w

  taken_apart : (c h : ℕ) (xs ys : List ℕ) → IsDistinct (c ∷ (xs ++ (h ∷ ys))) → NotIn h (c ∷ xs)
  taken_apart c h xs ys (f, d) =
      ((λ e. (append-NotIn_right c xs (h ∷ ys) f).0 (sym e)), middle-NotIn h xs ys d)

  -- What an enqueue comes to: with a record at hand the envelope is logged, else it is dropped.
  pub data Enqueued (logged : List p.Envelope) (e : p.Envelope) (s : LogEngine p)
      : List ℕ → Type 0 where
    drops :
        enqueue p e s ≡ some (record s { dropped = fetch_add s.dropped }) → Enqueued logged e s []
    logs :
        (h : ℕ) (xs : List ℕ) (t : LogEngine p)
        → enqueue p e s ≡ some t
        → IsValid p first (logged ++ (e ∷ [])) t
        → t.dropped ≡ s.dropped
        → t.run ≡ s.run
        → Enqueued logged e s (h ∷ xs)

  stored-IsValid :
      (s : LogEngine p) (logged : List p.Envelope) (e : p.Envelope) (v : IsValid p first logged s)
      (h : ℕ) (xs : List ℕ) (l : FreeList)
      → v.free ≡ h ∷ xs
      → IsStack l xs
      → IsValid p first (logged ++ (e ∷ [])) (record s {
        freelist = l;
        storage = update s.storage h (some e);
        queue = MpscQueue.push h s.queue;
        enqueued = fetch_add s.enqueued;
      })
  stored-IsValid s logged e v h xs l eq st = record {
    free = xs;
    waiting = v.waiting ++ (h ∷ []);
    submitted = v.submitted;
    stored = v.stored ++ (e ∷ []);
    is_stack = st;
    holds = push-Holds h s.queue v.waiting apart_now v.holds;
    apart = rw (push-head h s.queue, append_assoc v.waiting (h ∷ []) xs, sym eq) v.apart;
    within = rw (append_assoc v.waiting (h ∷ []) xs, sym eq) v.within;
    is_kept = rw (push-head h s.queue) v.is_kept;
    positive = v.positive;
    edge = v.edge;
    has_records = v.has_records;
    texts = append-AreStored p s.storage h e v.waiting v.stored apart_now.1 v.texts;
    in_order = ap (λ r. r ++ (e ∷ [])) v.in_order ∙ append_assoc v.submitted v.stored (e ∷ []);
    same_world = v.same_world;
    whole = omega (arith, v.whole, ap length eq, length-append v.waiting (h ∷ []));
    enqueued = omega (arith, v.enqueued, length-append logged (e ∷ []));
    written = v.written;
  }
    where
      apart_now : NotIn h (s.queue.head ∷ v.waiting)
      apart_now =
          taken_apart s.queue.head h v.waiting xs
            (subst (λ ys. IsDistinct (s.queue.head ∷ (v.waiting ++ ys))) eq v.apart)

  pub enqueue_running :
      (e : p.Envelope) (s : LogEngine p)
      → s.run ≡ true
      → enqueue p e s ≡ store_record p e (try_pop s.freelist) s
  unfolding enqueue ensure_running
  enqueue_running e s r = rw r

  -- In a running engine that is valid, an enqueue drops its envelope, and counts it as dropped, exactly
  -- when no record is free; else the envelope is logged, last, and the engine stays valid.
  pub enqueue_lem :
      (s : LogEngine p) (logged : List p.Envelope) (e : p.Envelope) (v : IsValid p first logged s)
      → s.run ≡ true
      → Enqueued logged e s v.free
  unfolding store_record
  enqueue_lem s logged e v r =
      elim (try_pop_lem s.freelist v.free v.is_stack)
          as (λ ys z. v.free ≡ ys → Enqueued logged e s ys) [
            | took_none x y ↦ λ k. drops (enqueue_running e s r ∙ rw (x, store_record))
            | took h xs l x y st ↦ λ k.
                let i = IsWithin-middle s.pool_base (s.pool_base + s.pool_size) h v.waiting xs (
                  subst (λ ys. IsWithin s.pool_base (s.pool_base + s.pool_size) (v.waiting ++ ys)) k
                    v.within) in
                logs h xs _
                  (enqueue_running e s r ∙ rw (x, store_record) (rw (in_pool s h i.0 i.1)))
                  (stored-IsValid s logged e v h xs l k st) refl refl
          ]
        refl
