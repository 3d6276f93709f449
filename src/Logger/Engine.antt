-- ===== src/Logger/Engine.antt =====
-- The class LogEngine of modules/logger/include/logger/core/log_engine.hpp and
-- modules/logger/src/log_engine.cpp. The address of a record is a number that no other allocation
-- has; number 0 is the stub of the queue. A record of a freed pool must not be touched: `none` is a
-- fault. A call of enqueue, a round of the worker and a stop run whole here; MpscQueue and FreeList
-- take the calls on the queue and on the free list apart.
pub mod Pool
pub mod Invariant
pub mod Order
pub mod Worker
pub mod Stop
pub mod Life
pub mod Restart
pub mod Producers
pub mod Lifecycle
mod Tests
use my_server.Common.{
  ℕ, zero, suc, ◌+◌, Option, none, some, Bool, true, false, ◌&&◌, List, [], ◌∷◌, update,
  if◌then◌else◌, ltb, leb,
}
use my_server.Server.Metrics.{fetch_add}
use my_server.Logger.FreeList
use my_server.Logger.FreeList.{FreeList}
use my_server.Logger.MpscQueue
use my_server.Logger.MpscQueue.{MpscQueue, pop, popped, nothing, unpublished, reset}

-- What is logged, and what submitting it changes.
pub record EngineParts : Type 1 where
  pub Envelope : Type 0
  pub World : Type 0
  pub submit : Envelope → World → World

-- `allocated` is the first address that no pool has had, `pending_recycle` the worker's variable of
-- that name, and `storage` what the records hold.
pub record LogEngine (p : EngineParts) : Type 0 where
  pub allocated : ℕ
  pub pool_base : ℕ
  pub pool_size : ℕ
  pub freelist : FreeList
  pub queue : MpscQueue
  pub storage : ℕ → Option p.Envelope
  pub run : Bool
  pub pending_recycle : Option ℕ
  pub dropped : ℕ
  pub enqueued : ℕ
  pub written : ℕ
  pub world : p.World

abbrev pub pool_records : ℕ
pool_records = 1024

-- `&pool_storage_[i]` for `count` indices from address `a` on, pushed in order.
unfoldable pub push_range : (count a : ℕ) → FreeList → FreeList
push_range zero a l = l
push_range (suc k) a l = push_range k (a + 1) (FreeList.push a l)

module _ (p : EngineParts) where
  unfoldable pub new : p.World → LogEngine p
  new world = record {
    allocated = 1;
    pool_base = 1;
    pool_size = 0;
    freelist = FreeList.new;
    queue = MpscQueue.new;
    storage = λ a. none;
    run = false;
    pending_recycle = none;
    dropped = 0;
    enqueued = 0;
    written = 0;
    world = world;
  }

  -- The record at this address is in the pool.
  abbrev pub is_live : LogEngine p → ℕ → Bool
  is_live s a = leb s.pool_base a && ltb a (s.pool_base + s.pool_size)

  -- `make_unique` frees the pool that there was.
  unfoldable pub init_pool_and_queue : LogEngine p → LogEngine p
  init_pool_and_queue s = record s {
    allocated = s.allocated + pool_records;
    pool_base = s.allocated;
    pool_size = pool_records;
    freelist = push_range pool_records s.allocated s.freelist;
  }

  unfoldable pub ensure_running : LogEngine p → LogEngine p
  ensure_running s = if s.run then s else init_pool_and_queue (record s { run = true })

  -- `enqueue` from the check of the record on.
  unfoldable pub store_record :
      p.Envelope → Option (ℕ × FreeList) → LogEngine p → Option (LogEngine p)
  store_record env none s = some (record s { dropped = fetch_add s.dropped })
  store_record env (some (rec, l)) s =
      if is_live s rec
      then some (record s {
        freelist = l;
        storage = update s.storage rec (some env);
        queue = MpscQueue.push rec s.queue;
        enqueued = fetch_add s.enqueued;
      })
      else none

  unfoldable pub enqueue : p.Envelope → LogEngine p → Option (LogEngine p)
  enqueue env s = let s' = ensure_running s in store_record env (FreeList.try_pop s'.freelist) s'

  -- `if (pending_recycle) freelist_.push(pending_recycle)`.
  abbrev pub recycle : Option ℕ → FreeList → FreeList
  recycle none l = l
  recycle (some r) l = FreeList.push r l

  -- What the worker does with a record: it submits and destroys the envelope that it holds.
  unfoldable pub write_record : ℕ → Option p.Envelope → LogEngine p → Option (LogEngine p)
  write_record rec none s = none
  write_record rec (some env) s = some (record s {
    freelist = recycle s.pending_recycle s.freelist;
    storage = update s.storage rec none;
    written = fetch_add s.written;
    pending_recycle = some rec;
    world = p.submit env s.world;
  })

  -- A round of the worker: it worked, or the queue was empty, or the link of the next record was
  -- not written yet, or it touched what it must not.
  pub data Round : Type 0 where
    worked : LogEngine p → Round
    idle blocked fault : Round

  unfoldable pub worker_round : LogEngine p → Round
  worker_round s = elim (pop s.queue) [
    | nothing ↦ idle
    | unpublished ↦ blocked
    | popped rec q ↦ (elim (write_record rec (s.storage rec) (record s { queue = q })) [
      | none ↦ fault
      | some t ↦ worked t
    ])
  ]

  -- The end of `worker_loop`.
  unfoldable pub finish_worker : LogEngine p → LogEngine p
  finish_worker s = record s {
    queue = reset s.queue;
    freelist = recycle s.pending_recycle s.freelist;
    pending_recycle = none;
  }

  -- `worker_loop` once `run_` is false, with fuel for its rounds.
  unfoldable pub drain : ℕ → LogEngine p → Option (LogEngine p)
  drain zero s = none
  drain (suc fuel) s = elim (worker_round s) [
    | worked t ↦ drain fuel t
    | idle ↦ some (finish_worker s)
    | blocked ↦ drain fuel s
    | fault ↦ none
  ]

  -- `stop_worker`, with the join of the worker.
  unfoldable pub stop_worker : ℕ → LogEngine p → Option (LogEngine p)
  stop_worker fuel s = if s.run then drain fuel (record s { run = false }) else some s

  unfoldable pub shutdown : ℕ → LogEngine p → Option (LogEngine p)
  unfolding stop_worker
  shutdown fuel s = stop_worker fuel s
