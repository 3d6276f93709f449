-- ===== src/Server/Admission/Tests.antt =====
-- Admission under backpressure: the theorems about it at concrete states.
use my_server.Common.{suc, ◌+◌, ◌<◌, ◌≡◌, refl, arith}
use my_server.Server.Admission.{Admission, Reach, here, next, admit, push, count}
use my_server.Server.Admission.Bound.{capacity_bound, capacity_exceeded}

-- Two submissions to a queue for one event, which both pass the test.
abbrev both_stored : Admission
both_stored = record { items = 2; queued_approx = 1; admitted = 0; stored = 1; popped = 0 }

both_stored-Reach : Reach 1 2 both_stored
both_stored-Reach =
    next
      (next
        (next
          (next (next here (admit (omega arith) (omega arith) refl))
            (admit (omega arith) (omega arith) refl))
          (push 1 refl refl))
        (push 0 refl refl))
      (count 1 refl refl)

capacity_bound_example : both_stored.items < 1 + 2
capacity_bound_example =
    capacity_bound 1 2 both_stored (omega arith) (omega arith) both_stored-Reach

capacity_exceeded_example : (s : Admission) × Reach 1 2 s × (suc s.items ≡ 1 + 2)
capacity_exceeded_example = capacity_exceeded 0 1 (omega arith)
