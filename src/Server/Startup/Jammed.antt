-- ===== src/Server/Startup/Jammed.antt =====
-- Starts of Server that reset the depth counter while an event of an earlier submission is in the
-- queue.
use my_server.Common.{ℕ, ◌+◌, ◌-◌, ◌<◌, ◌≡◌, ◌⊎◌, inl, refl, arith}
use my_server.Server.Types.{running, stopping, stopped, graceful, force}
use my_server.Server.Metrics.{u64}
use my_server.Server.Startup.{
  notify_all, notify_one, notify_nobody, go_on, give_up, fall_asleep, Startup, Label, shutdown,
  in_loop, Step, Run, here, next, begin, reset_stop, reset_depth, spawn, ask, look_over, look_on,
  set_stopping, request, join, enter, admit, turn_away, push, refuse, count, take, uncount,
  find_empty, leave, stay,
}
use my_server.Server.Startup.Runs.{AnyStep, spawns}

-- The queue is empty, no submission has been admitted, and the depth counter has wrapped below 0; `n`
-- workers are in their loop.
pub record IsJammed (n : ℕ) (s : Startup) : Type 0 where
  pub empty : s.items ≡ 0
  pub depth : s.queued_approx ≡ u64 - 1
  pub no_admitted : s.admitted ≡ 0
  pub no_stored : s.stored ≡ 0
  pub no_popped : s.popped ≡ 0
  pub no_start : s.at_stop + s.at_depth + s.spawning ≡ 0
  pub is_graceful : s.mode ≡ graceful
  pub state : (s.state ≡ running) ⊎ (s.state ≡ stopping)
  pub workers : in_loop s ≡ n

abbrev pub NoForce : Startup → Label → Type 0
NoForce s (shutdown force) = ⊥
NoForce s l = Unit {0}

module _ (capacity pool n : ℕ) where
  Step-IsJammed :
      (s t : Startup) (l : Label)
      → capacity < u64
      → 0 < n
      → NoForce s l
      → Step capacity pool s t l
      → IsJammed n s
      → IsJammed n t
  Step-IsJammed s t _ small pos ok (begin h e) v = absurd (ground (arith, v.state))
  Step-IsJammed s t _ small pos ok (reset_stop k h e) v = absurd (omega (arith, v.no_start))
  Step-IsJammed s t _ small pos ok (reset_depth k h e) v = absurd (omega (arith, v.no_start))
  Step-IsJammed s t _ small pos ok (spawn k h e) v = absurd (omega (arith, v.no_start))
  Step-IsJammed s t _ small pos ok (ask graceful e) v = ground (arith, v.state)
  Step-IsJammed s t _ small pos ok (ask force e) v = absurd ok
  Step-IsJammed s t _ small pos ok (look_over k h o e) v = ground (arith, v.state)
  Step-IsJammed s t _ small pos ok (look_on k h o e) v = ground (arith, v.state)
  Step-IsJammed s t _ small pos ok (set_stopping k h e) v = ground (arith, v.state)
  Step-IsJammed s t _ small pos ok (request k h e) v = ground (arith, v.state)
  Step-IsJammed s t _ small pos ok (join h z e) v = absurd (omega (arith, v.workers))
  Step-IsJammed s t _ small pos ok (enter h e) v = ground (arith, v.state)
  Step-IsJammed s t _ small pos ok (admit k h c e) v = absurd (omega (arith, v.depth))
  Step-IsJammed s t _ small pos ok (turn_away k h c e) v = ground (arith, v.state)
  Step-IsJammed s t _ small pos ok (push k h e) v = absurd (omega (arith, v.no_admitted))
  Step-IsJammed s t _ small pos ok (refuse k h e) v = absurd (omega (arith, v.no_admitted))
  Step-IsJammed s t _ small pos ok (count k h e) v = absurd (omega (arith, v.no_stored))
  Step-IsJammed s t _ small pos ok (take k j h i e) v = absurd (omega (arith, v.empty))
  Step-IsJammed s t _ small pos ok (uncount k h e) v = absurd (omega (arith, v.no_popped))
  Step-IsJammed s t _ small pos ok (find_empty k h i e) v = ground (arith, v.state)
  Step-IsJammed s t _ small pos ok (leave k h x e) v =
      absurd (ground (arith, v.depth, v.is_graceful))
  Step-IsJammed s t _ small pos ok (stay k h x e) v = ground (arith, v.state)
  Step-IsJammed s t _ small pos ok (notify_all k h e) v = ground (arith, v.state)
  Step-IsJammed s t _ small pos ok (notify_one k j h i e) v = ground (arith, v.state)
  Step-IsJammed s t _ small pos ok (notify_nobody k h i e) v = ground (arith, v.state)
  Step-IsJammed s t _ small pos ok (go_on k h x e) v = ground (arith, v.state)
  Step-IsJammed s t _ small pos ok (give_up k h x e) v = ground (arith, v.state)
  Step-IsJammed s t _ small pos ok (fall_asleep k h e) v = ground (arith, v.state)

  pub Run-IsJammed :
      {s t : Startup}
      → capacity < u64
      → 0 < n
      → Run capacity pool NoForce s t
      → IsJammed n s
      → IsJammed n t
  Run-IsJammed small pos here v = v
  Run-IsJammed small pos (next {t = t} {u = u} {l = l} r ok st) v =
      Step-IsJammed t u l small pos ok st (Run-IsJammed small pos r v)

module _ (capacity pool : ℕ) where
  -- The new workers take the one event, whose count was reset.
  jams :
      (s t : Startup)
      → Run capacity pool AnyStep s t
      → t.state ≡ running
      → t.mode ≡ graceful
      → t.items ≡ 1
      → t.queued_approx ≡ 0
      → t.admitted ≡ 0
      → t.stored ≡ 0
      → t.popped ≡ 0
      → t.at_stop + t.at_depth ≡ 0
      → 0 < t.spawning
      → (last : Startup) × Run capacity pool AnyStep s last
        × (0 < in_loop last)
        × IsJammed (in_loop last) last
  jams s t r up m one zeroed adm st pop calm pos = (
    _,
    next
        (next (spawns capacity pool t.spawning s t r refl) tt
          (take (t.searching + t.spawning - 1) 0 (omega arith) one refl))
        tt (uncount t.popped refl refl),
    omega arith,
    record {
      empty = refl;
      depth = omega arith;
      no_admitted = adm;
      no_stored = st;
      no_popped = pop;
      no_start = omega arith;
      is_graceful = m;
      state = inl up;
      workers = refl;
    },
  )

  -- What a jammed server does, unless a shutdown is forced.
  abbrev pub JammedAfter : Startup → Type 0
  JammedAfter s =
      (t : Startup) × Run capacity pool AnyStep s t
      × (0 < in_loop t)
      × ((u : Startup)
          → Run capacity pool NoForce t u
          → (u.items ≡ 0)
            × (u.queued_approx ≡ u64 - 1)
            × (u.admitted ≡ 0)
            × (in_loop u ≡ in_loop t))

  jammed_after :
      (s t : Startup)
      → capacity < u64
      → Run capacity pool AnyStep s t
      → 0 < in_loop t
      → IsJammed (in_loop t) t
      → JammedAfter s
  jammed_after s t small r pos v = (
    t,
    r,
    pos,
    λ u r'.
        let w = Run-IsJammed capacity pool (in_loop t) small pos r' v in
        (w.empty, w.depth, w.no_admitted, w.workers),
  )

  -- While a start of an idle server with an empty queue has reset the stop flag and not yet the depth
  -- counter, a submission can be accepted and counted: the start then forgets the count, and the
  -- worker that takes the event wraps the counter to its largest value. Unless a shutdown is forced,
  -- from then on the queue stays empty, no submission is ever admitted, and no worker leaves its loop,
  -- so that a graceful shutdown never ends.
  pub count_lost :
      (s : Startup)
      → 0 < pool
      → s.queued_approx < capacity
      → capacity < u64
      → s.state ≡ running
      → s.mode ≡ graceful
      → s.at_depth ≡ 1
      → s.at_stop ≡ 0
      → s.items + s.admitted + s.stored + s.popped ≡ 0
      → JammedAfter s
  count_lost s pos room small up m one stop idle =
      let j =
        jams s _
          (next
            (next
              (next (next (next here tt (enter up refl)) tt (admit s.entered refl room refl)) tt
                (push s.admitted refl refl))
              tt (count s.stored refl refl))
            tt (reset_depth 0 one refl))
          up m (omega arith) refl (omega arith) (omega arith) (omega arith) (omega arith)
          (omega arith) in
      jammed_after s j.0 small j.1 j.2 j.3

  -- When a server has stopped after a graceful shutdown, with an empty queue and nothing to count, and
  -- a submission has been admitted and not pushed: the submission can push and count its event before
  -- the next start, which forgets the count, and the worker that takes the event wraps the counter to
  -- its largest value. Unless a shutdown is forced, from then on the queue stays empty, no submission
  -- is ever admitted, and no worker leaves its loop.
  pub late_submission_jams :
      (s : Startup)
      → 0 < pool
      → capacity < u64
      → s.state ≡ stopped
      → s.mode ≡ graceful
      → s.admitted ≡ 1
      → s.items + s.stored + s.popped ≡ 0
      → s.at_stop + s.at_depth ≡ 0
      → JammedAfter s
  late_submission_jams s pos small down m one idle calm =
      let j =
        jams s _
          (next
            (next
              (next (next (next here tt (push 0 one refl)) tt (count s.stored refl refl)) tt
                (begin (ground arith) refl))
              tt (reset_stop s.at_stop refl refl))
            tt (reset_depth s.at_depth refl refl))
          refl m (omega arith) refl refl (omega arith) (omega arith) (omega arith) (omega arith) in
      jammed_after s j.0 small j.1 j.2 j.3
