-- ===== src/Server/Wakeup/Stranded.antt =====
-- Notifications of Server that fall between a worker's test and its sleep.
use my_server.Common.{
  ◌∙◌, ap, ℕ, ◌+◌, ◌-◌, ◌<◌, ◌≡◌, ◌⊎◌, inl, refl, sym, true, false, arith, update, update_self,
}
use my_server.Server.Types.{ShutdownMode}
use my_server.Server.Metrics.{fetch_add}
use my_server.Server.Wakeup.{
  here, next, at_sleep, asleep, Threads, notified, Move, count, notify_one, notify_nobody,
  notify_all, pop, uncount, find_empty, leave, stay, go_on, give_up, fall_asleep, move, store,
  request_stop, Moves, Steps,
}

-- Nobody is left to notify a worker.
pub record NoNotice (s : Threads) : Type 0 where
  pub no_stored : s.stored ≡ 0
  pub no_counted : s.counted ≡ 0
  pub no_notice : s.stop_notice ≡ false

-- Worker `i` sleeps, with nobody left to notify it.
pub record IsStranded (i : ℕ) (s : Threads) : Type 0 where
  pub sleeping : s.workers i ≡ asleep
  pub unnoticed : NoNotice s

module _ (pool : ℕ) where
  Move-NoNotice : (s t : Threads) → Move pool s t → NoNotice s → NoNotice t
  Move-NoNotice s t (count h e) x = absurd (omega (arith, x.no_stored))
  Move-NoNotice s t (notify_one j h lt w e) x = absurd (omega (arith, x.no_counted))
  Move-NoNotice s t (notify_nobody h none_asleep e) x = absurd (omega (arith, x.no_counted))
  Move-NoNotice s t (notify_all h e) x = absurd (cc (sym h ∙ x.no_notice))
  Move-NoNotice s t (pop j lt h p e) x = ground (arith, x.no_stored)
  Move-NoNotice s t (uncount j lt h e) x = ground (arith, x.no_stored)
  Move-NoNotice s t (find_empty j lt h p e) x = ground (arith, x.no_stored)
  Move-NoNotice s t (leave j lt h p e) x = ground (arith, x.no_stored)
  Move-NoNotice s t (stay j lt h p e) x = ground (arith, x.no_stored)
  Move-NoNotice s t (go_on j lt h p e) x = ground (arith, x.no_stored)
  Move-NoNotice s t (give_up j lt h p e) x = ground (arith, x.no_stored)
  Move-NoNotice s t (fall_asleep j lt h e) x = ground (arith, x.no_stored)

  -- The moves of other workers do not wake it.
  Move-asleep :
      (i : ℕ) (s t : Threads)
      → Move pool s t
      → NoNotice s
      → s.workers i ≡ asleep
      → t.workers i ≡ asleep
  Move-asleep i s t (count h e) x w = ground arith
  Move-asleep i s t (notify_one j h lt w' e) x w = absurd (omega (arith, x.no_counted))
  Move-asleep i s t (notify_nobody h none_asleep e) x w = ground arith
  Move-asleep i s t (notify_all h e) x w = absurd (cc (sym h ∙ x.no_notice))
  Move-asleep i s t (pop j lt h p e) x w = ground arith
  Move-asleep i s t (uncount j lt h e) x w = ground arith
  Move-asleep i s t (find_empty j lt h p e) x w = ground arith
  Move-asleep i s t (leave j lt h p e) x w = ground arith
  Move-asleep i s t (stay j lt h p e) x w = ground arith
  Move-asleep i s t (go_on j lt h p e) x w = ground arith
  Move-asleep i s t (give_up j lt h p e) x w = ground arith
  Move-asleep i s t (fall_asleep j lt h e) x w = ground arith

  Moves-NoNotice : {s t : Threads} → Moves pool s t → NoNotice s → NoNotice t
  Moves-NoNotice here x = x
  Moves-NoNotice (next {t = u} {u = v} r m) x = Move-NoNotice u v m (Moves-NoNotice r x)

  Moves-asleep :
      (i : ℕ) {s t : Threads}
      → Moves pool s t
      → NoNotice s
      → s.workers i ≡ asleep
      → t.workers i ≡ asleep
  Moves-asleep i here x w = w
  Moves-asleep i (next {t = u} {u = v} r m) x w =
      Move-asleep i u v m (Moves-NoNotice r x) (Moves-asleep i r x w)

  -- Whenever a worker stands between its test and its sleep, and no submission is under way, a
  -- shutdown can strand it: the stop is requested and notified, the worker then falls asleep, and
  -- whatever the other workers do, without new calls it never leaves its loop, so that `wait` never
  -- returns.
  pub shutdown_strands :
      (s : Threads) (i : ℕ) (m : ShutdownMode)
      → i < pool
      → s.workers i ≡ at_sleep
      → s.stored ≡ 0
      → s.counted ≡ 0
      → (t : Threads) × Steps pool s t
        × (t.stop_requested ≡ true)
        × ((u : Threads) → Moves pool t u → u.workers i ≡ asleep)
  shutdown_strands s i m lt w a b = (
    record s {
      workers = update (λ j. notified (s.workers j)) i asleep;
      stop_requested = true;
      mode = m;
      stop_notice = false;
    },
    next (next (next here (request_stop m refl)) (move (notify_all refl refl)))
        (move (fall_asleep i lt (ap notified w) refl)),
    refl,
    λ u r.
        Moves-asleep i r (record { no_stored = a; no_counted = b; no_notice = refl })
          (update_self (λ j. notified (s.workers j)) i asleep),
  )

  -- The queue has `n` events, and no worker of the pool looks at it.
  record IsDrowsy (n : ℕ) (s : Threads) : Type 0 where
    items : s.items ≡ n
    unnoticed : NoNotice s
    dozing : (i : ℕ) → i < pool → (s.workers i ≡ at_sleep) ⊎ (s.workers i ≡ asleep)

  Move-IsDrowsy : (n : ℕ) (s t : Threads) → Move pool s t → IsDrowsy n s → IsDrowsy n t
  Move-IsDrowsy n s t (count h e) x = absurd (omega (arith, x.unnoticed.no_stored))
  Move-IsDrowsy n s t (notify_one j h lt w e) x = absurd (omega (arith, x.unnoticed.no_counted))
  Move-IsDrowsy n s t (notify_nobody h none_asleep e) x =
      absurd (omega (arith, x.unnoticed.no_counted))
  Move-IsDrowsy n s t (notify_all h e) x = absurd (cc (sym h ∙ x.unnoticed.no_notice))
  Move-IsDrowsy n s t (pop j lt h p e) x = absurd (ground (arith, x.dozing j lt))
  Move-IsDrowsy n s t (uncount j lt h e) x = absurd (ground (arith, x.dozing j lt))
  Move-IsDrowsy n s t (find_empty j lt h p e) x = absurd (ground (arith, x.dozing j lt))
  Move-IsDrowsy n s t (leave j lt h p e) x = absurd (ground (arith, x.dozing j lt))
  Move-IsDrowsy n s t (stay j lt h p e) x = absurd (ground (arith, x.dozing j lt))
  Move-IsDrowsy n s t (go_on j lt h p e) x = absurd (ground (arith, x.dozing j lt))
  Move-IsDrowsy n s t (give_up j lt h p e) x = absurd (ground (arith, x.dozing j lt))
  Move-IsDrowsy n s t (fall_asleep j lt h e) x = record {
    items = ground (arith, x.items);
    unnoticed = Move-NoNotice s t (fall_asleep j lt h e) x.unnoticed;
    dozing = λ i il. ground (arith, x.dozing i il);
  }

  Moves-IsDrowsy : (n : ℕ) {s t : Threads} → Moves pool s t → IsDrowsy n s → IsDrowsy n t
  Moves-IsDrowsy n here x = x
  Moves-IsDrowsy n (next {t = u} {u = v} r m) x = Move-IsDrowsy n u v m (Moves-IsDrowsy n r x)

  -- While every worker stands between its test and its sleep, and no call is under way, the workers
  -- miss a submission: the event is stored, counted and notified, and without new calls it stays in
  -- the queue, with every worker asleep or about to be.
  pub submission_missed :
      (s : Threads)
      → ((i : ℕ) → i < pool → s.workers i ≡ at_sleep)
      → s.stored ≡ 0
      → s.counted ≡ 0
      → s.stop_notice ≡ false
      → (t : Threads) × Steps pool s t
        × (t.queued_approx ≡ fetch_add s.queued_approx)
        × ((u : Threads)
            → Moves pool t u
            → (u.items ≡ s.items + 1)
              × ((i : ℕ) → i < pool → (u.workers i ≡ at_sleep) ⊎ (u.workers i ≡ asleep)))
  submission_missed s w a b c = (
    _,
    next (next (next here (store refl)) (move (count (omega arith) refl)))
        (move (notify_nobody (omega arith) (λ i lt e. cc (sym (w i lt) ∙ e)) refl)),
    refl,
    λ u r. let v = Moves-IsDrowsy (s.items + 1) r drowsy in (v.items, v.dozing),
  )
    where
      drowsy : IsDrowsy (s.items + 1) (record s {
        items = s.items + 1;
        queued_approx = fetch_add s.queued_approx;
        stored = s.stored + 1 - 1;
        counted = s.counted + 1 - 1;
      })
      drowsy = record {
        items = refl;
        unnoticed = record { no_stored = omega arith; no_counted = omega arith; no_notice = c };
        dozing = λ i lt. inl (w i lt);
      }
