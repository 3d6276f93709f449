-- ===== src/Logger/Engine/Producers.antt =====
-- LogEngine::enqueue of modules/logger/include/logger/core/log_engine.hpp, and the two functions it
-- calls in modules/logger/src/log_engine.cpp, taken apart: the calls of any number of threads and the
-- rounds of the worker interleave between the record that a call takes, the exchange that queues it,
-- the link that it writes and the count. `try_pop` and `push` of the free list run whole; Race takes
-- them apart.
pub mod Invariant
pub mod Rounds
pub mod Quiet
pub mod Whole
mod Tests
use my_server.Common.{ℕ, suc, Option, none, some, List, [], ◌∷◌, ◌++◌, ◌≡◌, update}
use my_server.Server.Metrics.{fetch_add}
use my_server.Logger.FreeList.{FreeList, try_pop}
use my_server.Logger.MpscQueue
use my_server.Logger.Engine.{
  EngineParts, LogEngine, Round, worker_round, worked, ensure_running, new,
}

module _ (p : EngineParts) where
  -- The record has the envelope, and `tail_` is exchanged: the engine, and the node to link from.
  unfoldable pub exchange_record : ℕ → p.Envelope → LogEngine p → LogEngine p × ℕ
  exchange_record rec env s =
      let (q, prev) = MpscQueue.exchange rec s.queue in
      (record s { storage = update s.storage rec (some env); queue = q }, prev)

  unfoldable pub link_record : ℕ → ℕ → LogEngine p → LogEngine p
  link_record prev rec s = record s { queue = MpscQueue.publish prev rec s.queue }

  unfoldable pub count_record : LogEngine p → LogEngine p
  count_record s = record s { enqueued = fetch_add s.enqueued }

  -- `held` has the records that calls have taken and not queued, `pending` the links that calls have
  -- still to write, and `uncounted` the queued envelopes that are not counted. `logged` has the
  -- envelopes in the order of their exchanges.
  pub record Producers : Type 0 where
    pub engine : LogEngine p
    pub held : List ℕ
    pub pending : ℕ → Option ℕ
    pub uncounted : ℕ
    pub logged : List p.Envelope

  -- A call of try_pop or push on the free list is one step; Logger/FreeList/Single has that it may be
  -- for one thread that logs, and Logger/FreeList/Race what may come of it for several. A count may
  -- come from the exchange on, which is sooner than in the source.
  pub data Step (s t : Producers) : Type 0 where
    acquires :
        (rec : ℕ) (l : FreeList)
        → try_pop s.engine.freelist ≡ some (rec, l)
        → t ≡ record s { engine = record (s.engine) { freelist = l }; held = rec ∷ s.held }
        → Step s t
    drops :
        try_pop s.engine.freelist ≡ none
        → t ≡ record s { engine = record (s.engine) { dropped = fetch_add s.engine.dropped } }
        → Step s t
    exchanges :
        (rec : ℕ) (before after : List ℕ) (env : p.Envelope)
        → s.held ≡ before ++ (rec ∷ after)
        → t ≡ record {
          engine = (exchange_record rec env s.engine).0;
          held = before ++ after;
          pending = update s.pending (exchange_record rec env s.engine).1 (some rec);
          uncounted = suc s.uncounted;
          logged = s.logged ++ (env ∷ []);
        }
        → Step s t
    links :
        (prev rec : ℕ)
        → s.pending prev ≡ some rec
        → t ≡ record s {
          engine = link_record prev rec s.engine;
          pending = update s.pending prev none;
        }
        → Step s t
    counts :
        (k : ℕ)
        → s.uncounted ≡ suc k
        → t ≡ record s { engine = count_record s.engine; uncounted = k }
        → Step s t
    works :
        (e : LogEngine p)
        → worker_round p s.engine ≡ worked e
        → t ≡ record s { engine = e }
        → Step s t

  pub data Reach (first : p.World) : Producers → Type 0 where
    here : Reach first (record {
      engine = ensure_running p (new p first);
      held = [];
      pending = λ a. none;
      uncounted = 0;
      logged = [];
    })
    next : {s t : Producers} → Reach first s → Step s t → Reach first t
