-- ===== src/Logger/Engine/Producers/Invariant.antt =====
-- LogEngine with calls of enqueue under way: where every record is, after any steps.
use my_server.Logger.MpscQueue.{publish, exchange}
use my_server.Common.{
  length-append, middle-NotIn, NotIn, none, ◌∙◌, some, update, suc, ap, arith, move-IsDistinct,
  append_assoc, ◌≤◌, true, ℕ, ◌+◌, ◌%◌, ◌<◌, ◌≡◌, List, [], ◌∷◌, ◌++◌, IsDistinct, length,
}
use my_server.Server.Metrics.{u64}
use my_server.Logger.FreeList.Order.{IsStack}
use my_server.Logger.MpscQueue.Fifo.{exchange-Holds, publish-Holds, Holds}
use my_server.Logger.Engine.{FreeList, EngineParts}
use my_server.Logger.Engine.Pool.{IsWithin, insert-IsWithin}
use my_server.Logger.Engine.Invariant.{append-AreStored, AreStored, submit_all, IsKept, kept}
use my_server.Logger.Engine.Producers.{exchange_record, count_record, link_record, Producers}

remove-IsWithin :
    (lo hi h : ℕ) (xs ys : List ℕ)
    → IsWithin lo hi (xs ++ (h ∷ ys))
    → (lo ≤ h) × (h < hi) × IsWithin lo hi (xs ++ ys)
remove-IsWithin lo hi h [] ys w = w
remove-IsWithin lo hi h (x ∷ xs) ys (a, b, w) =
    let (c, d, v) = remove-IsWithin lo hi h xs ys w in (c, d, (a, b, v))

move-IsWithin :
    (lo hi h : ℕ) (xs ys zs : List ℕ)
    → IsWithin lo hi (xs ++ (ys ++ (h ∷ zs)))
    → IsWithin lo hi (xs ++ (h ∷ (ys ++ zs)))
move-IsWithin lo hi h xs ys zs w =
    let (a, b, v) = remove-IsWithin lo hi h (xs ++ ys) zs (rw (append_assoc xs ys (h ∷ zs)) w) in
    insert-IsWithin lo hi h xs (ys ++ zs) a b (rw⁻¹ (append_assoc xs ys zs) v)

module _ (p : EngineParts) (first : p.World) where
  -- Each record is free, or held by a call that has still to queue it, or waits in the queue with an
  -- envelope, or is kept by the worker. What was queued is what was submitted and then what waits, in
  -- the order of the exchanges.
  pub record IsBusy (s : Producers p) : Type 0 where
    pub free : List ℕ
    pub waiting : List ℕ
    pub submitted : List p.Envelope
    pub stored : List p.Envelope
    pub is_stack : IsStack s.engine.freelist free
    pub holds : Holds s.engine.queue s.pending waiting
    pub apart : IsDistinct (s.engine.queue.head ∷ (waiting ++ (s.held ++ free)))
    pub within :
        IsWithin s.engine.pool_base
          (s.engine.pool_base + s.engine.pool_size)
          (waiting ++ (s.held ++ free))
    pub is_kept : IsKept p s.engine
    pub positive : 0 < s.engine.pool_base
    pub has_records : 0 < s.engine.pool_size
    pub edge : s.engine.allocated ≡ s.engine.pool_base + s.engine.pool_size
    pub runs : s.engine.run ≡ true
    pub texts : AreStored p s.engine.storage waiting stored
    pub in_order : s.logged ≡ submitted ++ stored
    pub same_world : s.engine.world ≡ submit_all p submitted first
    pub whole :
        length free + length s.held + length waiting + kept p s.engine.pending_recycle
        ≡ s.engine.pool_size
    pub enqueued : (s.engine.enqueued + s.uncounted) % u64 ≡ length s.logged % u64
    pub bounded : s.engine.enqueued < u64
    pub written : s.engine.written ≡ length submitted % u64

  pub acquires-IsBusy :
      (s : Producers p) (rec : ℕ) (l : FreeList) (xs : List ℕ) (v : IsBusy s)
      → v.free ≡ rec ∷ xs
      → IsStack l xs
      → IsBusy (record s { engine = record (s.engine) { freelist = l }; held = rec ∷ s.held })
  acquires-IsBusy s rec l xs v eq st = record {
    free = xs;
    waiting = v.waiting;
    submitted = v.submitted;
    stored = v.stored;
    is_stack = st;
    holds = v.holds;
    apart = move-IsDistinct rec (s.engine.queue.head ∷ v.waiting) s.held xs (rw⁻¹ eq v.apart);
    within =
        move-IsWithin s.engine.pool_base (s.engine.pool_base + s.engine.pool_size) rec v.waiting
          s.held xs (rw⁻¹ eq v.within);
    is_kept = v.is_kept;
    positive = v.positive;
    has_records = v.has_records;
    edge = v.edge;
    runs = v.runs;
    texts = v.texts;
    in_order = v.in_order;
    same_world = v.same_world;
    whole = omega (arith, v.whole, ap length eq);
    enqueued = v.enqueued;
    bounded = v.bounded;
    written = v.written;
  }

  pub exchanges-IsBusy :
      (s : Producers p) (rec : ℕ) (before after : List ℕ) (env : p.Envelope)
      → IsBusy s
      → s.held ≡ before ++ (rec ∷ after)
      → IsBusy (record {
        engine = (exchange_record p rec env s.engine).0;
        held = before ++ after;
        pending = update s.pending (exchange_record p rec env s.engine).1 (some rec);
        uncounted = suc s.uncounted;
        logged = s.logged ++ (env ∷ []);
      })
  unfolding exchange_record exchange
  exchanges-IsBusy s rec before after env v eq = record {
    free = v.free;
    waiting = v.waiting ++ (rec ∷ []);
    submitted = v.submitted;
    stored = v.stored ++ (env ∷ []);
    is_stack = v.is_stack;
    holds = exchange-Holds rec s.engine.queue s.pending v.waiting apart_now v.holds;
    apart =
        rw
          (
            append_assoc v.waiting (rec ∷ []) ((before ++ after) ++ v.free),
            append_assoc before after v.free,
          )
          moved;
    within =
        rw
          (
            append_assoc v.waiting (rec ∷ []) ((before ++ after) ++ v.free),
            append_assoc before after v.free,
          )
          (move-IsWithin s.engine.pool_base (s.engine.pool_base + s.engine.pool_size) rec v.waiting
            before (after ++ v.free) (rw⁻¹ shape v.within));
    is_kept = v.is_kept;
    positive = v.positive;
    has_records = v.has_records;
    edge = v.edge;
    runs = v.runs;
    texts = append-AreStored p s.engine.storage rec env v.waiting v.stored apart_now.1 v.texts;
    in_order = ap (λ r. r ++ (env ∷ [])) v.in_order ∙ append_assoc v.submitted v.stored (env ∷ []);
    same_world = v.same_world;
    whole = omega (
      arith,
      v.whole,
      ap length eq,
      length-append before (rec ∷ after),
      length-append before after,
      length-append v.waiting (rec ∷ []),
    );
    enqueued = omega (arith, v.enqueued, length-append s.logged (env ∷ []));
    bounded = v.bounded;
    written = v.written;
  }
    where
      shape : s.held ++ v.free ≡ before ++ (rec ∷ (after ++ v.free))
      shape = ap (λ r. r ++ v.free) eq ∙ append_assoc before (rec ∷ after) v.free

      moved :
          IsDistinct (s.engine.queue.head ∷ (v.waiting ++ (rec ∷ (before ++ (after ++ v.free)))))
      moved =
          move-IsDistinct rec (s.engine.queue.head ∷ v.waiting) before (after ++ v.free)
            (rw⁻¹ shape v.apart)

      apart_now : NotIn rec (s.engine.queue.head ∷ v.waiting)
      apart_now =
          middle-NotIn rec (s.engine.queue.head ∷ v.waiting) (before ++ (after ++ v.free)) moved

  pub links-IsBusy :
      (s : Producers p) (prev rec : ℕ)
      → IsBusy s
      → s.pending prev ≡ some rec
      → IsBusy (record s {
        engine = link_record p prev rec s.engine;
        pending = update s.pending prev none;
      })
  unfolding link_record publish
  links-IsBusy s prev rec v h = record {
    free = v.free;
    waiting = v.waiting;
    submitted = v.submitted;
    stored = v.stored;
    is_stack = v.is_stack;
    holds = publish-Holds prev rec s.engine.queue s.pending v.waiting h v.holds;
    apart = v.apart;
    within = v.within;
    is_kept = v.is_kept;
    positive = v.positive;
    has_records = v.has_records;
    edge = v.edge;
    runs = v.runs;
    texts = v.texts;
    in_order = v.in_order;
    same_world = v.same_world;
    whole = v.whole;
    enqueued = v.enqueued;
    bounded = v.bounded;
    written = v.written;
  }

  pub counts-IsBusy :
      (s : Producers p) (k : ℕ)
      → IsBusy s
      → s.uncounted ≡ suc k
      → IsBusy (record s { engine = count_record p s.engine; uncounted = k })
  unfolding count_record
  counts-IsBusy s k v h = record {
    free = v.free;
    waiting = v.waiting;
    submitted = v.submitted;
    stored = v.stored;
    is_stack = v.is_stack;
    holds = v.holds;
    apart = v.apart;
    within = v.within;
    is_kept = v.is_kept;
    positive = v.positive;
    has_records = v.has_records;
    edge = v.edge;
    runs = v.runs;
    texts = v.texts;
    in_order = v.in_order;
    same_world = v.same_world;
    whole = v.whole;
    enqueued = omega (arith, v.enqueued, h);
    bounded = omega arith;
    written = v.written;
  }
