-- ===== src/Server/Admission/Bound.antt =====
-- Server::trySubmit under backpressure: how many events the queue comes to hold.
use Prim.Native.Nat.{zero}
use my_server.Common.{refl, zero, ap, ℕ, suc, ◌+◌, ◌%◌, ◌<◌, ◌≤◌, ◌≡◌, sym, subst, arith}
use my_server.Server.Metrics.{u64}
use my_server.Server.Admission.{
  next, here, Reach, Admission, Step, admit, push, refuse, count, take, uncount,
}

module _ (capacity threads : ℕ) where
  record IsBounded (s : Admission) : Type 0 where
    accounted : (s.queued_approx + s.stored) % u64 ≡ (s.items + s.popped) % u64
    few : s.admitted + s.stored ≤ threads
    bound : suc (s.items + s.popped + s.admitted) ≤ capacity + threads

  Step-IsBounded :
      (s t : Admission)
      → capacity + threads < u64
      → Step capacity threads s t
      → IsBounded s
      → IsBounded t
  Step-IsBounded s t small (admit h k e) v = subst IsBounded (sym e) (record {
    accounted = v.accounted;
    few = omega (arith, k);
    bound = omega (arith, v.accounted, v.bound, v.few, h, k, small);
  })
  Step-IsBounded s t small (push k h e) v = subst IsBounded (sym e) (record {
    accounted = omega (arith, v.accounted);
    few = omega (arith, v.few, h);
    bound = omega (arith, v.bound, h);
  })
  Step-IsBounded s t small (refuse k h e) v = subst IsBounded (sym e) (record {
    accounted = v.accounted;
    few = omega (arith, v.few, h);
    bound = omega (arith, v.bound, h);
  })
  Step-IsBounded s t small (count k h e) v = subst IsBounded (sym e) (record {
    accounted = omega (arith, v.accounted, h);
    few = omega (arith, v.few, h);
    bound = v.bound;
  })
  Step-IsBounded s t small (take k h e) v = subst IsBounded (sym e) (record {
    accounted = omega (arith, v.accounted, h);
    few = v.few;
    bound = omega (arith, v.bound, h);
  })
  Step-IsBounded s t small (uncount k h e) v = subst IsBounded (sym e) (record {
    accounted = omega (arith, v.accounted, h);
    few = v.few;
    bound = omega (arith, v.bound, h);
  })

  Reach-IsBounded :
      {s : Admission}
      → 0 < threads
      → capacity + threads < u64
      → Reach capacity threads s
      → IsBounded s
  Reach-IsBounded pos small here = record {
    accounted = refl;
    few = omega arith;
    bound = omega (arith, pos);
  }
  Reach-IsBounded pos small (next {s = s} {t = t} r m) =
      Step-IsBounded s t small m (Reach-IsBounded pos small r)

  -- While at most `threads` submissions are under way at once, and the capacity and their number are
  -- together below 2 ^ 64: however they and the workers interleave, the queue holds fewer events than the
  -- capacity and that number together, though the counter of the depth may wrap in between.
  pub capacity_bound :
      (s : Admission)
      → 0 < threads
      → capacity + threads < u64
      → Reach capacity threads s
      → s.items < capacity + threads
  capacity_bound s pos small r = omega (arith, (Reach-IsBounded pos small r).bound)

abbrev holding : ℕ → ℕ → ℕ → ℕ → Admission
holding items depth admitted stored = record {
  items = items;
  queued_approx = depth;
  admitted = admitted;
  stored = stored;
  popped = 0;
}

-- Submissions one at a time, then tests at once, then pushes.
filled : (c n k : ℕ) → suc c + suc n < u64 → k ≤ c → Reach (suc c) (suc n) (holding k k 0 0)
filled c n zero small h = here
filled c n (suc k) small h =
    next
      (next
        (next (filled c n k small (omega (arith, h))) (admit (omega (arith, h)) (omega arith) refl))
        (push 0 refl refl))
      (count 0 refl (ap (λ q. holding (suc k) q 0 0) (omega (arith, small, h))))

tested : (c n k : ℕ) → suc c + suc n < u64 → k ≤ suc n → Reach (suc c) (suc n) (holding c c k 0)
tested c n zero small h = filled c n c small (omega arith)
tested c n (suc k) small h =
    next (tested c n k small (omega (arith, h))) (admit (omega arith) (omega (arith, h)) refl)

pushed :
    (c n k i : ℕ)
    → suc c + suc n < u64
    → k + i ≡ suc n
    → Reach (suc c) (suc n) (holding (c + i) c k i)
pushed c n k zero small h =
    subst (λ m. Reach (suc c) (suc n) (holding m c k 0)) (omega arith)
      (tested c n k small (omega (arith, h)))
pushed c n k (suc i) small h =
    next (pushed c n (suc k) i small (omega (arith, h)))
      (push k refl (ap (λ m. holding m c k (suc i)) (omega arith)))

-- With any capacity and any number of submissions above 0 that are together below 2 ^ 64, the bound is
-- reached: the queue comes to hold, with one more, as many events as the capacity and that number
-- together, since all the submissions may pass the test for the last place.
pub capacity_exceeded :
    (c n : ℕ)
    → suc c + suc n < u64
    → (s : Admission) × Reach (suc c) (suc n) s × (suc s.items ≡ suc c + suc n)
capacity_exceeded c n small =
    (holding (c + suc n) c 0 (suc n), pushed c n 0 (suc n) small (omega arith), omega arith)
