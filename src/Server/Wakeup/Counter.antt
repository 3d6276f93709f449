-- ===== src/Server/Wakeup/Counter.antt =====
-- The depth counter of Server between its updates.
use my_server.Common.{
  update_self, ap, count-differ, count-congr, ◌%◌, ℕ, ◌+◌, ◌-◌, ◌<◌, ◌≡◌, ◌≢◌, refl, Bool, true,
  false, arith, bit, update,
}
use my_server.Common
use my_server.Server.Metrics.{fetch_sub, u64}
use my_server.Server.Wakeup.{
  request_stop, here, store, next, move, Steps, Step, WorkerAt, at_pop, at_uncount, at_exit,
  at_test, at_sleep, asleep, out, Threads, moves, notified, Move, count, notify_one, notify_nobody,
  notify_all, pop, uncount, find_empty, leave, stay, go_on, give_up, fall_asleep,
}

-- The worker has popped an event and not yet counted it.
abbrev pub holds_event : WorkerAt → Bool
holds_event w = elim w [ at_uncount ↦ true | _ ↦ false ]

abbrev pub in_hand : ℕ → (ℕ → WorkerAt) → ℕ
in_hand pool workers = Common.count pool (λ i. holds_event (workers i))

holds_event-notified : (w : WorkerAt) → holds_event (notified w) ≡ holds_event w
holds_event-notified at_pop = refl
holds_event-notified at_uncount = refl
holds_event-notified at_exit = refl
holds_event-notified at_test = refl
holds_event-notified at_sleep = refl
holds_event-notified asleep = refl
holds_event-notified out = refl

module _ (pool : ℕ) where
  in_hand-notified :
      (workers : ℕ → WorkerAt) → in_hand pool (λ i. notified (workers i)) ≡ in_hand pool workers
  in_hand-notified workers = count-congr pool _ _ (λ i lt. holds_event-notified (workers i))

  in_hand-moves :
      (s : Threads) (i : ℕ) (place : WorkerAt)
      → i < pool
      → in_hand pool (moves s i place) + bit (holds_event (s.workers i))
        ≡ in_hand pool s.workers + bit (holds_event place)
  in_hand-moves s i place lt = omega (
    arith,
    count-differ pool i (λ j. holds_event (s.workers j)) (λ j. holds_event (moves s i place j))
        (λ j ne. ground arith) lt,
    ap (λ w. bit (holds_event w)) (update_self s.workers i place),
  )

  -- Modulo 2 ^ 64 the depth counter and the submissions still to count make up the queue and the
  -- events in the workers' hands.
  abbrev pub Accounted : Threads → Type 0
  Accounted s = (s.queued_approx + s.stored) % u64 ≡ (s.items + in_hand pool s.workers) % u64

  Move-Accounted : (s t : Threads) → Move pool s t → Accounted s → Accounted t
  Move-Accounted s t (count h e) x = ground arith
  Move-Accounted s t (notify_one i h lt w e) x = ground (arith, in_hand-moves s i at_test lt)
  Move-Accounted s t (notify_nobody h none e) x = ground arith
  Move-Accounted s t (notify_all h e) x = ground (arith, in_hand-notified s.workers)
  Move-Accounted s t (pop i lt h p e) x = ground (arith, in_hand-moves s i at_uncount lt)
  Move-Accounted s t (uncount i lt h e) x = ground (arith, in_hand-moves s i at_pop lt)
  Move-Accounted s t (find_empty i lt h p e) x = ground (arith, in_hand-moves s i at_exit lt)
  Move-Accounted s t (leave i lt h p e) x = ground (arith, in_hand-moves s i out lt)
  Move-Accounted s t (stay i lt h p e) x = ground (arith, in_hand-moves s i at_test lt)
  Move-Accounted s t (go_on i lt h p e) x = ground (arith, in_hand-moves s i at_pop lt)
  Move-Accounted s t (give_up i lt h p e) x = ground (arith, in_hand-moves s i at_sleep lt)
  Move-Accounted s t (fall_asleep i lt h e) x = ground (arith, in_hand-moves s i asleep lt)

  Step-Accounted : (s t : Threads) → Step pool s t → Accounted s → Accounted t
  Step-Accounted s t (move m) x = Move-Accounted s t m x
  Step-Accounted s t (store e) x = ground arith
  Step-Accounted s t (request_stop m e) x = ground arith

  -- However the workers and the calls interleave, the depth counter and the submissions that have
  -- stored and not yet counted make up, modulo 2 ^ 64, the queue and the events that workers have
  -- popped and not yet counted, if they did at first.
  pub Steps-Accounted : {s t : Threads} → Steps pool s t → Accounted s → Accounted t
  Steps-Accounted here x = x
  Steps-Accounted (next {t = u} {u = v} r m) x = Step-Accounted u v m (Steps-Accounted r x)

  -- A worker that pops an event between the push and the count of its submission wraps the depth
  -- counter of an empty queue to its largest value.
  depth_wraps :
      (s : Threads) (i : ℕ)
      → i < pool
      → s.workers i ≡ at_pop
      → s.items ≡ 0
      → s.queued_approx ≡ 0
      → (t : Threads) × Steps pool s t × (t.items ≡ 0) × (t.queued_approx ≡ u64 - 1)
  depth_wraps s i lt w a b = (
    record s {
      workers = update (update s.workers i at_uncount) i at_pop;
      items = s.items + 1 - 1;
      queued_approx = fetch_sub s.queued_approx;
      stored = s.stored + 1;
    },
    next (next (next here (store refl)) (move (pop i lt w (omega arith) refl)))
        (move (uncount i lt (update_self s.workers i at_uncount) refl)),
    omega arith,
    omega arith,
  )
