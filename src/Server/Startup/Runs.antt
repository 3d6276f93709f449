-- ===== src/Server/Startup/Runs.antt =====
-- Runs of Server's calls (app/include/server/server.h), and the threads of a start in a row.
use my_server.Common.{ℕ, zero, suc, ◌+◌, ◌≡◌, refl, subst, arith}
use my_server.Server.Startup.{Startup, Label, Run, next, spawn}

abbrev pub AnyStep : Startup → Label → Type 0
AnyStep s l = Unit {0}

-- The threads of a start are created one after the other.
module _ (capacity pool : ℕ) where
  pub spawns :
      (n : ℕ) (s t : Startup)
      → Run capacity pool AnyStep s t
      → t.spawning ≡ n
      → Run capacity pool AnyStep s (record t { spawning = 0; searching = t.searching + n })
  spawns zero s t r e = subst (Run capacity pool AnyStep s) (ground arith) r
  spawns (suc k) s t r e = subst (Run capacity pool AnyStep s) (ground arith) (
      spawns k s (record t { spawning = k; searching = suc t.searching })
        (next r tt (spawn k e refl)) refl)
