-- ===== src/Logger/Engine/Restart.antt =====
-- LogEngine started again after a stop: `make_unique` frees the records that `freelist_` still links.
use my_server.Common.{
  update, ℕ, suc, ◌+◌, ◌<◌, ◌≤◌, ◌≡◌, refl, sym, ap, ◌∙◌, subst, Option, none, some, List, [], ◌∷◌,
  ◌++◌, arith, length, true, false,
}
use my_server.Logger.FreeList.{FreeList, try_pop}
use my_server.Logger.FreeList.Order.{try_pop-cons, IsStack}
use my_server.Server.Metrics.{fetch_add}
use my_server.Logger.MpscQueue.{push}
use my_server.Logger.Engine.{
  EngineParts, LogEngine, ensure_running, init_pool_and_queue, enqueue, store_record, is_live,
  push_range,
}
use my_server.Logger.Engine.Pool.{IsWithin, push_range-IsStack}
use my_server.Logger.Engine.Stop.{IsStopped}

module _ (p : EngineParts) where
  -- Enqueues in a row.
  abbrev pub enqueue_all : List p.Envelope → LogEngine p → Option (LogEngine p)
  enqueue_all [] s = some s
  enqueue_all (e ∷ es) s = elim (enqueue p e s) [ none ↦ none | some t ↦ enqueue_all es t ]

  enqueue_stored :
      (s : LogEngine p) (e : p.Envelope) (h : ℕ) (l : FreeList)
      → s.run ≡ true
      → try_pop s.freelist ≡ some (h, l)
      → enqueue p e s ≡ store_record p e (some (h, l)) s
  unfolding enqueue ensure_running
  enqueue_stored s e h l r k = rw r (rw k)

  abbrev stored_record : LogEngine p → ℕ → p.Envelope → FreeList → LogEngine p
  stored_record s n e l = record s {
    freelist = l;
    storage = update s.storage n (some e);
    queue = push n s.queue;
    enqueued = fetch_add s.enqueued;
  }

  enqueue_all-none :
      (e : p.Envelope) (es : List p.Envelope) (s : LogEngine p)
      → enqueue p e s ≡ none
      → enqueue_all (e ∷ es) s ≡ none
  enqueue_all-none e es s h = rw (h, enqueue_all)

  enqueue_all-some :
      (e : p.Envelope) (es : List p.Envelope) (s t : LogEngine p)
      → enqueue p e s ≡ some t
      → enqueue_all es t ≡ none
      → enqueue_all (e ∷ es) s ≡ none
  enqueue_all-some e es s t h k = rw (h, enqueue_all) k

  -- Once the live records of the free list are taken, the next enqueue touches a freed one.
  runs_out :
      (ns : List ℕ) (x : ℕ) (xs : List ℕ) (es : List p.Envelope) (s : LogEngine p)
      → s.run ≡ true
      → IsStack s.freelist (ns ++ (x ∷ xs))
      → IsWithin s.pool_base (s.pool_base + s.pool_size) ns
      → is_live p s x ≡ false
      → length es ≡ suc (length ns)
      → enqueue_all es s ≡ none
  unfolding store_record
  runs_out ns x xs [] s r st w d h = absurd (omega arith)
  runs_out [] x xs (e ∷ es) s r st w d h =
      let t = try_pop-cons s.freelist x xs st in
      enqueue_all-none e es s (enqueue_stored s e x t.0 r t.1 ∙ rw d)
  runs_out (n ∷ ns) x xs (e ∷ es) s r st (a, b, w) d h =
      let q = try_pop-cons s.freelist n (ns ++ (x ∷ xs)) st in
      let live : is_live p s n ≡ true = ground arith in
      let t = stored_record s n e q.0 in
      enqueue_all-some e es s t (enqueue_stored s e n q.0 r q.1 ∙ rw live)
        (runs_out ns x xs es t r q.2 w d (omega arith))

  dead : (t : LogEngine p) (x : ℕ) → x < t.pool_base → is_live p t x ≡ false
  dead t x h = ground arith

  -- An engine that ran, was stopped as it should be, and is started again by the next enqueue: its
  -- free list has 1024 new records on top of all the records of the old pool, which is freed. Of 1025
  -- envelopes that are enqueued before the worker has recycled a record, one touches a freed record.
  pub restart_dangles :
      (first : p.World) (logged : List p.Envelope) (t : LogEngine p)
      (v : IsStopped p first logged t)
      → (ns : List ℕ) × IsStack (ensure_running p t).freelist (ns ++ v.free)
        × (length ns ≡ 1024)
        × ((x : ℕ)
            → t.pool_base ≤ x
            → x < t.pool_base + t.pool_size
            → is_live p (ensure_running p t) x ≡ false)
        × ((es : List p.Envelope) → length es ≡ 1025 → enqueue_all es (ensure_running p t) ≡ none)
  unfolding ensure_running init_pool_and_queue
  restart_dangles first logged t v = rw v.halted (
    r.0,
    r.1,
    r.3,
    (λ x h k. dead again x (omega (arith, v.edge))),
    (λ es h. out_of_pool v.free refl es h),
  )
    where
      again : LogEngine p
      again = init_pool_and_queue p (record t { run = true })

      r :
          (ns : List ℕ) × IsStack (push_range 1024 t.allocated t.freelist) (ns ++ v.free)
          × IsWithin t.allocated (t.allocated + 1024) ns
          × (length ns ≡ 1024)
      r =
          push_range-IsStack 1024 t.allocated t.pool_base t.freelist v.free v.is_stack
            (omega (arith, v.edge))
            (subst (λ hi. IsWithin t.pool_base hi v.free) (sym v.edge) v.within)

      out_of_pool :
          (xs : List ℕ)
          → v.free ≡ xs
          → (es : List p.Envelope) → length es ≡ 1025
          → enqueue_all es again ≡ none
      out_of_pool [] eq es h = absurd (omega (arith, v.whole, ap length eq, v.has_records))
      out_of_pool (x ∷ xs) eq es h =
          let w = subst (IsWithin t.pool_base (t.pool_base + t.pool_size)) eq v.within in
          runs_out r.0 x xs es again refl (subst (λ ys. IsStack again.freelist (r.0 ++ ys)) eq r.1)
            r.2 (dead again x (omega (arith, v.edge, w.1))) (omega (arith, h, r.3))
