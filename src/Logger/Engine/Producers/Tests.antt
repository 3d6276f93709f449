-- ===== src/Logger/Engine/Producers/Tests.antt =====
-- Two calls of LogEngine::enqueue that interleave, and the theorems about such calls at that run.
use my_server.Logger.MpscQueue
use my_server.Logger.Engine.Producers.Quiet.{IsQuiet, producers_end}
use my_server.Logger.Engine.Stop.{IsStopped}
use my_server.Logger.Engine.Producers.{
  exchanges, counts, acquires, here, links, next, count_record, Reach, link_record, exchange_record,
  Producers,
}
use my_server.Common.{
  ◌≢◌, Option, arith, ◌++◌, suc, update, none, [], ℕ, ◌≡◌, refl, some, List, ◌∷◌,
}
use my_server.Logger.FreeList
use my_server.Logger.FreeList.{FreeList, try_pop}
use my_server.Logger.Engine.{
  blocked, init_pool_and_queue, new, stop_worker, worker_round, ensure_running, LogEngine,
  EngineParts, push_range,
}

abbrev demo : EngineParts
demo = record { Envelope = ℕ; World = List ℕ; submit = λ e w. e ∷ w }

-- The states of two calls: both take a record, the second call exchanges first, and the first one links
-- first.
abbrev start : Producers demo
start = record {
  engine = ensure_running demo (new demo []);
  held = [];
  pending = λ a. none;
  uncounted = 0;
  logged = [];
}

abbrev acquired : ℕ → ℕ → Producers demo → Producers demo
acquired rec next_free s = record s {
  engine = record (s.engine) { freelist = record (s.engine.freelist) { head = some next_free } };
  held = rec ∷ s.held;
}

abbrev exchanged : ℕ → ℕ → List ℕ → Producers demo → Producers demo
exchanged rec env held s = record {
  engine = (exchange_record demo rec env s.engine).0;
  held = held;
  pending = update s.pending (exchange_record demo rec env s.engine).1 (some rec);
  uncounted = suc s.uncounted;
  logged = s.logged ++ (env ∷ []);
}

abbrev linked : ℕ → ℕ → Producers demo → Producers demo
linked prev rec s = record s {
  engine = link_record demo prev rec s.engine;
  pending = update s.pending prev none;
}

abbrev counted : ℕ → Producers demo → Producers demo
counted k s = record s { engine = count_record demo s.engine; uncounted = k }

abbrev both_queued : Producers demo
both_queued = linked 1023 1024 (
    exchanged 1024 7 []
      (exchanged 1023 8 (1024 ∷ []) (acquired 1023 1022 (acquired 1024 1023 start))))

abbrev raced : Producers demo
raced = counted 0 (counted 1 (linked 0 1023 both_queued))

both_queued-Reach : Reach demo [] both_queued
unfolding ensure_running new init_pool_and_queue push_range FreeList.new FreeList.push
    FreeList.try_pop MpscQueue.new exchange_record MpscQueue.exchange
both_queued-Reach =
    next
      (next
        (next (next (next here (acquires 1024 _ refl refl)) (acquires 1023 _ refl refl))
          (exchanges 1023 [] (1024 ∷ []) 8 refl refl))
        (exchanges 1024 [] [] 7 refl refl))
      (links 1023 1024 refl refl)

raced-Reach : Reach demo [] raced
unfolding init_pool_and_queue ensure_running new MpscQueue.new exchange_record MpscQueue.exchange
raced-Reach =
    next (next (next both_queued-Reach (links 0 1023 refl refl)) (counts 1 refl refl))
      (counts 0 refl refl)

links_gone :
    (m : ℕ → Option ℕ) (a : ℕ)
    → ((k : ℕ) → k ≢ 0 → k ≢ 1023 → m k ≡ none)
    → update (update m 1023 none) 0 none a ≡ none
links_gone m a h = ground (arith, h a)

links_done : (a : ℕ) → raced.pending a ≡ none
unfolding init_pool_and_queue ensure_running new MpscQueue.new exchange_record MpscQueue.exchange
links_done a =
    links_gone
      (exchanged 1024 7 []
        (exchanged 1023 8 (1024 ∷ []) (acquired 1023 1022 (acquired 1024 1023 start)))).pending
      a (λ k x y. ground (arith, x, y))

raced-IsQuiet : IsQuiet demo [] raced
unfolding init_pool_and_queue ensure_running new MpscQueue.new exchange_record MpscQueue.exchange
raced-IsQuiet = record { none_held = refl; none_pending = λ a. links_done a; all_counted = refl }

-- The worker waits for the second call, although the first one has linked its record.
blocked_run : worker_round demo both_queued.engine ≡ blocked
unfolding worker_round ensure_running new init_pool_and_queue MpscQueue.new MpscQueue.pop
    exchange_record MpscQueue.exchange link_record MpscQueue.publish
blocked_run = refl

producers_end_example :
    (fuel : ℕ) × (t : LogEngine demo) × (stop_worker demo fuel raced.engine ≡ some t)
    × IsStopped demo [] (8 ∷ 7 ∷ []) t
producers_end_example = producers_end demo [] raced raced-Reach raced-IsQuiet
