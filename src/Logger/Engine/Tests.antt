-- ===== src/Logger/Engine/Tests.antt =====
-- Runs of LogEngine, and the theorems about it at concrete inputs: envelopes are numbers, and the
-- world is the list of what was submitted, latest first.
use my_server.Logger.FreeList.Order.{IsStack}
use my_server.Common.{
  false, ◌+◌, ◌<◌, ◌≤◌, ◌++◌, arith, suc, ℕ, ◌≡◌, ◌≢◌, refl, none, some, List, [], ◌∷◌, length,
}
use my_server.Logger.Engine.{
  is_live, EngineParts, LogEngine, new, ensure_running, init_pool_and_queue, enqueue, store_record,
  push_range, stop_worker,
}
use my_server.Logger.FreeList
use my_server.Logger.MpscQueue
use my_server.Logger.Engine.Invariant.{IsValid}
use my_server.Logger.Engine.Life.{Life, started, accepts, stop_submits_all}
use my_server.Logger.Engine.Order.{start-IsValid}
use my_server.Logger.Engine.Stop.{stop_worker_lem, IsStopped}
use my_server.Logger.Engine.Restart.{restart_dangles, enqueue_all}

abbrev demo : EngineParts
demo = record { Envelope = ℕ; World = List ℕ; submit = λ e w. e ∷ w }

unfoldable fresh : LogEngine demo
fresh = ensure_running demo (new demo [])

enqueue_runs :
    (t : LogEngine demo) × (enqueue demo 7 fresh ≡ some t)
    × (t.enqueued ≡ 1)
    × (t.queue.tail ≡ 1024)
unfolding fresh enqueue store_record new ensure_running init_pool_and_queue push_range FreeList.new
    FreeList.push FreeList.try_pop MpscQueue.new MpscQueue.push
enqueue_runs = (_, refl, refl, refl)

fresh-has_records : fresh.freelist.head ≢ none
unfolding fresh new ensure_running init_pool_and_queue push_range FreeList.new FreeList.push
fresh-has_records = λ e. cc e

-- The engine after it logged 7.
one : (t : LogEngine demo) × (enqueue demo 7 fresh ≡ some t)
unfolding fresh
one = (stop_submits_all demo [] [] fresh started).0 7

one-Life : Life demo [] (7 ∷ []) one.0
unfolding fresh
one-Life = accepts {s = fresh} 7 started fresh-has_records one.1

stop_submits_all_example :
    ((e : ℕ) → (t : LogEngine demo) × (enqueue demo e one.0 ≡ some t))
    × ((fuel : ℕ) × (t : LogEngine demo) × (stop_worker demo fuel one.0 ≡ some t)
        × IsStopped demo [] (7 ∷ []) t)
stop_submits_all_example = stop_submits_all demo [] (7 ∷ []) one.0 one-Life

fresh-IsValid : IsValid demo [] [] fresh
unfolding fresh
fresh-IsValid = start-IsValid demo []

fresh-IsStopped :
    (t : LogEngine demo) × (stop_worker demo (suc (length fresh-IsValid.waiting)) fresh ≡ some t)
    × IsStopped demo [] [] t
unfolding fresh ensure_running new init_pool_and_queue
fresh-IsStopped =
    stop_worker_lem demo [] (suc (length fresh-IsValid.waiting)) fresh [] fresh-IsValid refl
      (omega arith)

restart_dangles_example :
    (ns : List ℕ) × IsStack
      (ensure_running demo fresh-IsStopped.0).freelist
      (ns ++ fresh-IsStopped.2.free)
    × (length ns ≡ 1024)
    × ((x : ℕ)
        → fresh-IsStopped.0.pool_base ≤ x
        → x < fresh-IsStopped.0.pool_base + fresh-IsStopped.0.pool_size
        → is_live demo (ensure_running demo fresh-IsStopped.0) x ≡ false)
    × ((es : List ℕ)
        → length es ≡ 1025
        → enqueue_all demo es (ensure_running demo fresh-IsStopped.0) ≡ none)
restart_dangles_example = restart_dangles demo [] [] fresh-IsStopped.0 fresh-IsStopped.2
