-- ===== src/Logger/Engine/Producers/Whole.antt =====
-- LogEngine::enqueue run whole, as one of the interleavings of its parts.
use my_server.Logger.Engine.Pool.{IsWithin}
use my_server.Logger.FreeList.Order.{took, took_none, try_pop_lem}
use my_server.Logger.MpscQueue.{publish, exchange}
use my_server.Common.{
  subst, append_assoc, ◌+◌, update_self, ◌∷◌, ◌∙◌, ◌++◌, [], none, true, update, some, ℕ, ◌≡◌, refl,
}
use my_server.Logger.FreeList.{FreeList, try_pop}
use my_server.Logger.MpscQueue
use my_server.Logger.Engine.{EngineParts, LogEngine, enqueue, store_record, is_live}
use my_server.Logger.Engine.Order.{in_pool, enqueue_running, IsWithin-middle}
use my_server.Logger.Engine.Producers.{
  Producers, Reach, next, acquires, drops, exchanges, links, counts, exchange_record, link_record,
  count_record,
}
use my_server.Logger.Engine.Producers.Quiet.{Reach-IsBusy}

module _ (p : EngineParts) (first : p.World) where
  -- The parts of a call, one right after the other.
  abbrev at_once : ℕ → FreeList → p.Envelope → LogEngine p → LogEngine p
  at_once rec l env s =
      let (t, prev) = exchange_record p rec env (record s { freelist = l }) in
      count_record p (link_record p prev rec t)

  at_once-enqueue :
      (rec : ℕ) (l : FreeList) (env : p.Envelope) (s : LogEngine p)
      → s.run ≡ true
      → try_pop s.freelist ≡ some (rec, l)
      → is_live p s rec ≡ true
      → enqueue p env s ≡ some (at_once rec l env s)
  unfolding exchange_record link_record count_record store_record publish MpscQueue.push
  at_once-enqueue rec l env s r x live =
      enqueue_running p first env s r ∙ rw (x, store_record) (rw live refl)

  -- The state after the parts of a call.
  abbrev called : ℕ → FreeList → p.Envelope → Producers p → Producers p
  called rec l env s = record s {
    engine = at_once rec l env s.engine;
    pending = update (update s.pending s.engine.queue.tail (some rec)) s.engine.queue.tail none;
    logged = s.logged ++ (env ∷ []);
  }

  called-Reach :
      (s : Producers p) (rec : ℕ) (l : FreeList) (env : p.Envelope)
      → Reach p first s
      → try_pop s.engine.freelist ≡ some (rec, l)
      → Reach p first (called rec l env s)
  unfolding exchange_record link_record count_record exchange publish
  called-Reach s rec l env r x =
      next
        (next (next (next r (acquires rec l x refl)) (exchanges rec [] s.held env refl refl)) (
          links s.engine.queue.tail rec (update_self s.pending s.engine.queue.tail (some rec))
            refl))
        (counts s.uncounted refl refl)

  -- From any state that interleaved calls and rounds lead to, a call of enqueue that runs whole leads to
  -- a state that its parts, and so interleaved calls, lead to.
  pub enqueue-Reach :
      (s : Producers p) (env : p.Envelope)
      → Reach p first s
      → (t : Producers p) × Reach p first t × (enqueue p env s.engine ≡ some t.engine)
  unfolding store_record
  enqueue-Reach s env r =
      let v = Reach-IsBusy p first r in
      elim (try_pop_lem s.engine.freelist v.free v.is_stack)
          as (λ ys z.
            v.free ≡ ys
            → (t : Producers p) × Reach p first t × (enqueue p env s.engine ≡ some t.engine)) [
              | took_none x y ↦ λ k. (
                _,
                next r (drops x refl),
                enqueue_running p first env s.engine v.runs ∙ rw (x, store_record) refl,
              )
              | took rec xs l x y st ↦ λ k. (
                called rec l env s,
                called-Reach s rec l env r x,
                at_once-enqueue rec l env s.engine v.runs x (
                    let w =
                      IsWithin-middle p first s.engine.pool_base
                        (s.engine.pool_base + s.engine.pool_size) rec (v.waiting ++ s.held) xs
                        (rw (append_assoc v.waiting s.held (rec ∷ xs)) (
                          subst
                            (λ ys.
                              IsWithin s.engine.pool_base (s.engine.pool_base + s.engine.pool_size)
                                (v.waiting ++ (s.held ++ ys)))
                            k v.within)) in
                    in_pool p first s.engine rec w.0 w.1),
              )
            ]
        refl
