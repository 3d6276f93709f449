-- ===== src/Server/Wakeup/Awake.antt =====
-- Workers of Server that no stop can strand.
use my_server.Server.Types.{ShutdownMode}
use my_server.Common.{inr, ◌⊎◌, inl, ℕ, ◌≡◌, ◌≢◌, refl, Bool, true, false, arith}
use my_server.Server.Wakeup.{
  here, next, WorkerAt, at_pop, at_uncount, at_exit, at_test, at_sleep, asleep, out, Threads,
  notified, Move, count, notify_one, notify_nobody, notify_all, pop, uncount, find_empty, leave,
  stay, go_on, give_up, fall_asleep, Step, move, store, request_stop, Steps,
}

-- The worker neither sleeps nor is about to.
abbrev pub is_up : WorkerAt → Bool
is_up w = elim w [ at_sleep ↦ false | asleep ↦ false | _ ↦ true ]

is_up-notified : (w : WorkerAt) → is_up w ≡ true → is_up (notified w) ≡ true
is_up-notified at_pop h = refl
is_up-notified at_uncount h = refl
is_up-notified at_exit h = refl
is_up-notified at_test h = refl
is_up-notified at_sleep h = h
is_up-notified asleep h = refl
is_up-notified out h = refl

up_or_noticed :
    (w : WorkerAt) → w ≢ at_sleep → (is_up w ≡ true) ⊎ ((w ≡ asleep) × (◌≡◌ {A = Bool} true true))
up_or_noticed at_pop ne = inl refl
up_or_noticed at_uncount ne = inl refl
up_or_noticed at_exit ne = inl refl
up_or_noticed at_test ne = inl refl
up_or_noticed at_sleep ne = absurd (ne refl)
up_or_noticed asleep ne = inr (refl, refl)
up_or_noticed out ne = inl refl

-- A stop is requested, and worker `i` is up, or it sleeps and the stop has still to notify it.
pub record IsUp (i : ℕ) (s : Threads) : Type 0 where
  pub stop : s.stop_requested ≡ true
  pub up : (is_up (s.workers i) ≡ true) ⊎ ((s.workers i ≡ asleep) × (s.stop_notice ≡ true))

module _ (pool : ℕ) where
  Move-IsUp : (i : ℕ) (s t : Threads) → Move pool s t → IsUp i s → IsUp i t
  Move-IsUp i s t (count h e) x = ground (arith, x.up)
  Move-IsUp i s t (notify_one j h lt w e) x = ground (arith, x.up)
  Move-IsUp i s t (notify_nobody h none_asleep e) x = ground (arith, x.up)
  Move-IsUp i s t (notify_all h e) x = record {
    stop = ground (arith, x.stop);
    up = elim x.up [
      | inl u ↦ inl (ground (arith, is_up-notified (s.workers i) u))
      | inr (w, n) ↦ inl (ground (arith, w))
    ];
  }
  Move-IsUp i s t (pop j lt h p e) x = ground (arith, x.up)
  Move-IsUp i s t (uncount j lt h e) x = ground (arith, x.up)
  Move-IsUp i s t (find_empty j lt h p e) x = ground (arith, x.up)
  Move-IsUp i s t (leave j lt h p e) x = ground (arith, x.up)
  Move-IsUp i s t (stay j lt h p e) x = ground (arith, x.up)
  Move-IsUp i s t (go_on j lt h p e) x = ground (arith, x.up)
  Move-IsUp i s t (give_up j lt h p e) x = absurd (ground (arith, x.stop))
  Move-IsUp i s t (fall_asleep j lt h e) x = ground (arith, x.up)

  Step-IsUp : (i : ℕ) (s t : Threads) → Step pool s t → IsUp i s → IsUp i t
  Step-IsUp i s t (move m) x = Move-IsUp i s t m x
  Step-IsUp i s t (store e) x = ground (arith, x.up)
  Step-IsUp i s t (request_stop m e) x = ground (arith, x.up)

  Steps-IsUp : (i : ℕ) {s t : Threads} → Steps pool s t → IsUp i s → IsUp i t
  Steps-IsUp i here x = x
  Steps-IsUp i (next {t = u} {u = v} q m) x = Step-IsUp i u v m (Steps-IsUp i q x)

  -- Only the window between its test and its sleep can strand a worker: when a shutdown requests its
  -- stop, a worker that is not in that window is, from then on and whatever the threads do, neither in
  -- it nor asleep, but for a sleep that the shutdown has still to end by its notification.
  pub only_window_strands :
      (i : ℕ) (s t : Threads) (m : ShutdownMode)
      → s.workers i ≢ at_sleep
      → Steps pool (record s { stop_requested = true; mode = m; stop_notice = true }) t
      → (is_up (t.workers i) ≡ true) ⊎ ((t.workers i ≡ asleep) × (t.stop_notice ≡ true))
  only_window_strands i s t m ne r =
      (Steps-IsUp i r (record { stop = refl; up = up_or_noticed (s.workers i) ne })).up
