-- ===== src/Logger/Engine/Lifecycle/Apart.antt =====
-- LogEngine started and stopped by calls that do not overlap.
use my_server.Common.{ap, sym, refl, ◌≤◌, subst, arith, suc, ◌+◌, ◌≡◌, Bool, true, false, bit}
use my_server.Logger.Engine.Lifecycle.{
  Lifecycle, created, Step, begins, inits, spawns, aborts, halts, skips, joins, leaves,
}

-- A start begins only while no stop is under way, and a stop only while no start is.
abbrev pub IsApart : {s t : Lifecycle} → Step s t → Type 0
IsApart {s = s} (begins a e) = s.stopping ≡ 0
IsApart {s = s} (halts a e) = s.at_init + s.at_thread ≡ 0
IsApart (inits k a e) = Unit {0}
IsApart (spawns k a b e) = Unit {0}
IsApart (aborts k a b e) = Unit {0}
IsApart (skips k a b e) = Unit {0}
IsApart (joins k a b c e) = Unit {0}
IsApart (leaves k a b e) = Unit {0}

pub data Reach : Lifecycle → Type 0 where
  here : Reach created
  next : {s t : Lifecycle} → Reach s → (m : Step s t) → IsApart m → Reach t

-- At most one call is under way, and the thread is joinable exactly from the end of a start to the end
-- of the next stop.
record IsOrderly (s : Lifecycle) : Type 0 where
  one_call : s.stopping + (s.at_init + s.at_thread) ≤ 1
  one_phase : bit s.run + s.stopping ≡ s.at_init + (s.at_thread + bit s.joinable)
  one_run : bit s.run + s.stopping ≤ 1
  few_workers : s.workers ≤ bit s.joinable
  works : bit s.run + bit s.joinable ≤ suc s.workers
  goes_on : s.terminated ≡ false

Step-IsOrderly : {s t : Lifecycle} (m : Step s t) → IsApart m → IsOrderly s → IsOrderly t
Step-IsOrderly {s = s} (begins a e) p v = subst IsOrderly (sym e) (record {
  one_call = omega (arith, v.one_call, v.one_phase, p, ap bit a);
  one_phase = omega (arith, v.one_phase, p, ap bit a);
  one_run = omega (arith, p);
  few_workers = v.few_workers;
  works = omega (arith, v.works, v.one_phase, p, ap bit a);
  goes_on = v.goes_on;
})
Step-IsOrderly {s = s} (inits k a e) p v = subst IsOrderly (sym e) (record {
  one_call = omega (arith, v.one_call, a);
  one_phase = omega (arith, v.one_phase, a);
  one_run = v.one_run;
  few_workers = v.few_workers;
  works = v.works;
  goes_on = v.goes_on;
})
Step-IsOrderly {s = s} (spawns k a b e) p v = subst IsOrderly (sym e) (record {
  one_call = omega (arith, v.one_call, a);
  one_phase = omega (arith, v.one_phase, a, ap bit b);
  one_run = v.one_run;
  few_workers = omega (arith, v.few_workers, ap bit b);
  works = omega (arith, v.one_run);
  goes_on = v.goes_on;
})
Step-IsOrderly {s = s} (aborts k a b e) p v =
    absurd (omega (arith, v.one_phase, v.one_run, a, ap bit b))
Step-IsOrderly {s = s} (halts a e) p v = subst IsOrderly (sym e) (record {
  one_call = omega (arith, v.one_run, p, ap bit a);
  one_phase = omega (arith, v.one_phase, ap bit a);
  one_run = omega (arith, v.one_run, ap bit a);
  few_workers = v.few_workers;
  works = omega (arith, v.works, ap bit a);
  goes_on = v.goes_on;
})
Step-IsOrderly {s = s} (skips k a b e) p v =
    absurd (omega (arith, v.one_phase, v.one_call, a, ap bit b))
Step-IsOrderly {s = s} (joins k a b c e) p v = subst IsOrderly (sym e) (record {
  one_call = omega (arith, v.one_call, a);
  one_phase = omega (arith, v.one_phase, a, ap bit b);
  one_run = omega (arith, v.one_run, a);
  few_workers = omega (arith, c);
  works = omega (arith, v.one_run, a);
  goes_on = v.goes_on;
})
Step-IsOrderly {s = s} (leaves k a b e) p v = subst IsOrderly (sym e) (record {
  one_call = v.one_call;
  one_phase = v.one_phase;
  one_run = v.one_run;
  few_workers = omega (arith, v.few_workers, a);
  works = omega (arith, v.works, a, v.few_workers, ap bit b);
  goes_on = v.goes_on;
})

Reach-IsOrderly : {s : Lifecycle} → Reach s → IsOrderly s
unfolding created
Reach-IsOrderly here = record {
  one_call = omega arith;
  one_phase = refl;
  one_run = omega arith;
  few_workers = omega arith;
  works = omega arith;
  goes_on = refl;
}
Reach-IsOrderly (next r m p) = Step-IsOrderly m p (Reach-IsOrderly r)

bit-false : (b : Bool) → bit b ≡ 0 → b ≡ false
bit-false true h = absurd (omega (arith, h))
bit-false false h = refl

bit-le : (b : Bool) → bit b ≤ 1
bit-le true = omega arith
bit-le false = omega arith

-- While no start overlaps a stop: the program is never ended by a joinable thread, at most one worker
-- runs, and between the calls a stopped engine has no worker and no thread left to join.
pub apart_never_aborts :
    (s : Lifecycle)
    → Reach s
    → (s.terminated ≡ false)
      × (s.workers ≤ 1)
      × (s.run ≡ false → s.stopping ≡ 0 → (s.joinable ≡ false) × (s.workers ≡ 0))
apart_never_aborts s r =
    let v = Reach-IsOrderly r in
    (
      v.goes_on,
      omega (arith, v.few_workers, bit-le s.joinable),
      λ e f. (
        bit-false s.joinable (omega (arith, v.one_phase, ap bit e, f)),
        omega (arith, v.few_workers, v.one_phase, ap bit e, f),
      ),
    )
