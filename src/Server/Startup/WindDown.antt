-- ===== src/Server/Startup/WindDown.antt =====
-- Server on its way to a stop: every call that is under way, and every worker, can go on to its end.
use Prim.Native.Nat.{zero}
use my_server.Common.{
  false, zero, suc, ℕ, ◌+◌, ◌-◌, ◌*◌, ◌<◌, ◌≡◌, ◌⊎◌, inl, inr, refl, true, arith, dec_lt,
  Bool-cases,
}
use my_server.Server.Types.{graceful}
use my_server.Server.Runtime.{is_over}
use my_server.Server.Startup.{
  notify_all, notify_nobody, go_on, take, find_empty, stay, leave, exits, uncount, Startup, inner,
  in_loop, Step, Run, here, next, look_over, look_on, set_stopping, request, admit, turn_away, push,
  count,
}
use my_server.Server.Startup.Calm.{
  IsApart, IsCalm, Step-IsCalm, starting, stopping_calls, submissions,
}

-- No start is under way, and the workers have been told to stop, or there is none.
pub record IsEnding (s : Startup) : Type 0 where
  pub calm : IsCalm s
  pub no_start : starting s ≡ 0
  pub is_graceful : s.mode ≡ graceful
  pub no_sleeper : s.at_sleep + s.asleep ≡ 0
  pub told : (s.stop_requested ≡ true) ⊎ (in_loop s ≡ 0)

-- What is left to do.
abbrev pub left : Startup → ℕ
left s =
    4 * s.at_load
    + 3 * s.at_set
    + 2 * s.at_request
    + s.at_notify
    + 9 * s.entered
    + 7 * s.admitted
    + 2 * s.stored
    + s.counted
    + 4 * s.items
    + (2 * s.searching + 3 * s.popped + s.empty_handed + 3 * s.at_test)

abbrev pub IsOver : Startup → Type 0
IsOver s = (stopping_calls s + submissions s ≡ 0) × (in_loop s ≡ 0)

module _ (capacity pool : ℕ) where
  -- Some calls and workers go on, and less is left.
  abbrev pub GoesOn : Startup → Type 0
  GoesOn s = (t : Startup) × Run capacity pool IsApart s t × IsEnding t × (left t < left s)

  goes :
      (s t : Startup)
      → Step capacity pool s t inner
      → IsEnding s
      → starting t ≡ 0
      → t.mode ≡ graceful
      → t.at_sleep + t.asleep ≡ 0
      → (t.stop_requested ≡ true) ⊎ (in_loop t ≡ 0)
      → left t < left s
      → GoesOn s
  goes s t st v none m awake told less = (
    t,
    next here tt st,
    record {
      calm = Step-IsCalm capacity pool s t inner tt st v.calm;
      no_start = none;
      is_graceful = m;
      no_sleeper = awake;
      told = told;
    },
    less,
  )

  -- The calls at their last accesses.
  rest : (s : Startup) → IsEnding s → 0 < s.stored + s.counted + s.at_notify → GoesOn s
  rest s v pos = elim (dec_lt 0 s.stored) [
    | yes h ↦
        goes s _ (count (s.stored - 1) (omega arith) refl) v v.no_start v.is_graceful v.no_sleeper
          v.told (omega arith)
    | no a ↦ elim (dec_lt 0 s.counted) [
      | yes h ↦
          goes s _ (notify_nobody (s.counted - 1) (omega arith) (omega (arith, v.no_sleeper)) refl)
            v v.no_start v.is_graceful v.no_sleeper v.told (omega arith)
      | no b ↦
          goes s _ (notify_all (s.at_notify - 1) (omega arith) refl) v v.no_start v.is_graceful
            (omega (arith, v.no_sleeper)) (told_still s v) (omega (arith, v.no_sleeper))
    ]
  ]
    where
      told_still :
          (r : Startup)
          → IsEnding r
          → (r.stop_requested ≡ true)
            ⊎ (r.searching + r.popped + r.empty_handed + (r.at_test + r.asleep + r.at_sleep + 0)
                ≡ 0)
      told_still r w = elim w.told [ inl t ↦ inl t | inr z ↦ inr (omega arith) ]

  calls_go_on : (s : Startup) → IsEnding s → 0 < stopping_calls s + submissions s → GoesOn s
  calls_go_on s v pos = elim (dec_lt 0 s.at_load) [
    | yes h ↦ elim (Bool-cases (is_over s.state)) [
      | inl o ↦
          goes s _ (look_over (s.at_load - 1) (omega arith) o refl) v v.no_start v.is_graceful
            v.no_sleeper v.told (omega arith)
      | inr o ↦
          goes s _ (look_on (s.at_load - 1) (omega arith) o refl) v v.no_start v.is_graceful
            v.no_sleeper v.told (omega arith)
    ]
    | no a ↦ elim (dec_lt 0 s.at_set) [
      | yes h ↦
          goes s _ (set_stopping (s.at_set - 1) (omega arith) refl) v v.no_start v.is_graceful
            v.no_sleeper v.told (omega arith)
      | no b ↦ elim (dec_lt 0 s.at_request) [
        | yes h ↦
            goes s _ (request (s.at_request - 1) (omega arith) refl) v v.no_start v.is_graceful
              v.no_sleeper (inl refl) (omega arith)
        | no c ↦ elim (dec_lt 0 s.entered) [
          | yes h ↦ elim (dec_lt s.queued_approx capacity) [
            | yes r ↦
                goes s _ (admit (s.entered - 1) (omega arith) r refl) v v.no_start v.is_graceful
                  v.no_sleeper v.told (omega arith)
            | no r ↦
                goes s _ (turn_away (s.entered - 1) (omega arith) (omega arith) refl) v v.no_start
                  v.is_graceful v.no_sleeper v.told (omega arith)
          ]
          | no d ↦ elim (dec_lt 0 s.admitted) [
            | yes h ↦
                goes s _ (push (s.admitted - 1) (omega arith) refl) v v.no_start v.is_graceful
                  v.no_sleeper v.told (omega arith)
            | no e ↦ rest s v (omega arith)
          ]
        ]
      ]
    ]
  ]

  -- An empty-handed worker leaves, or looks again and takes an event.
  looks_again :
      (s : Startup)
      → IsEnding s
      → s.stop_requested ≡ true
      → 0 < s.items
      → 0 < s.empty_handed
      → exits s ≡ false
      → GoesOn s
  looks_again s v stop i h x =
      let tested : Startup = record s {
        empty_handed = s.empty_handed - 1;
        at_test = suc s.at_test;
      } in
      let zeroth : Step capacity pool s tested inner =
        stay (s.empty_handed - 1) (omega arith) x refl in
      let again : Startup = record tested { at_test = s.at_test; searching = suc s.searching } in
      let first : Step capacity pool tested again inner =
        go_on s.at_test refl (ground (arith, stop)) refl in
      let fed : Startup = record again {
        searching = s.searching;
        items = s.items - 1;
        popped = suc s.popped;
      } in
      let second : Step capacity pool again fed inner =
        take s.searching (s.items - 1) refl (omega arith) refl in
      let calm = Step-IsCalm capacity pool s tested inner tt zeroth v.calm in
      let calm' = Step-IsCalm capacity pool tested again inner tt first calm in
      (
        fed,
        next (next (next here tt zeroth) tt first) tt second,
        record {
          calm = Step-IsCalm capacity pool again fed inner tt second calm';
          no_start = v.no_start;
          is_graceful = v.is_graceful;
          no_sleeper = v.no_sleeper;
          told = inl stop;
        },
        omega arith,
      )

  workers_go_on :
      (s : Startup) → IsEnding s → stopping_calls s + submissions s ≡ 0 → 0 < in_loop s → GoesOn s
  workers_go_on s v quiet pos = elim (dec_lt 0 s.at_test) [
    | yes w ↦
        goes s _ (go_on (s.at_test - 1) (omega arith) (ground (arith, stop)) refl) v v.no_start
          v.is_graceful v.no_sleeper (inl stop) (omega arith)
    | no w ↦ elim (dec_lt 0 s.popped) [
      | yes h ↦
          goes s _ (uncount (s.popped - 1) (omega arith) refl) v v.no_start v.is_graceful
            v.no_sleeper (inl stop) (omega arith)
      | no a ↦ elim (dec_lt 0 s.items) [
        | yes i ↦ elim (dec_lt 0 s.searching) [
          | yes h ↦
              goes s _ (take (s.searching - 1) (s.items - 1) (omega arith) (omega arith) refl) v
                v.no_start v.is_graceful v.no_sleeper (inl stop) (omega arith)
          | no b ↦ elim (Bool-cases (exits s)) [
            | inl x ↦
                goes s _ (leave (s.empty_handed - 1) (omega (arith, v.no_sleeper)) x refl) v
                  v.no_start v.is_graceful v.no_sleeper (inl stop) (omega arith)
            | inr x ↦ looks_again s v stop i (omega (arith, v.no_sleeper)) x
          ]
        ]
        | no i ↦ elim (dec_lt 0 s.searching) [
          | yes h ↦
              goes s _ (find_empty (s.searching - 1) (omega arith) (omega arith) refl) v v.no_start
                v.is_graceful v.no_sleeper (inl stop) (omega arith)
          | no b ↦
              goes s _
                (leave (s.empty_handed - 1) (omega (arith, v.no_sleeper))
                  (ground (arith, stop, v.is_graceful, drained a i)) refl)
                v v.no_start v.is_graceful v.no_sleeper (inl stop) (omega arith)
        ]
      ]
    ]
  ]
    where
      stop : s.stop_requested ≡ true
      stop = elim v.told [ inl t ↦ t | inr z ↦ absurd (omega arith) ]

      -- The counter is exact when nobody is between its updates.
      drained : ¬ (0 < s.popped) → ¬ (0 < s.items) → s.queued_approx ≡ 0
      drained a i = omega (arith, v.calm.accounted, v.calm.small)

  -- A run can be continued by another.
  pub continues :
      (s t u : Startup)
      → Run capacity pool IsApart s t
      → Run capacity pool IsApart t u
      → Run capacity pool IsApart s u
  continues s t u r here = r
  continues s t u r (next {t = w} q ok st) = next (continues s t w r q) ok st

  pub winds_down :
      (n : ℕ) (s : Startup)
      → left s < n
      → IsEnding s
      → (t : Startup) × Run capacity pool IsApart s t × IsEnding t × IsOver t
  winds_down zero s small v = absurd (omega arith)
  winds_down (suc n) s small v = elim (dec_lt 0 (stopping_calls s + submissions s)) [
    | yes h ↦
        let g = calls_go_on s v h in
        let r = winds_down n g.0 (omega (arith, g.3)) g.2 in
        (r.0, continues s g.0 r.0 g.1 r.1, r.2, r.3)
    | no a ↦ elim (dec_lt 0 (in_loop s)) [
      | yes h ↦
          let g = workers_go_on s v (omega arith) h in
          let r = winds_down n g.0 (omega (arith, g.3)) g.2 in
          (r.0, continues s g.0 r.0 g.1 r.1, r.2, r.3)
      | no b ↦ (s, here, v, (omega arith, omega arith))
    ]
  ]
