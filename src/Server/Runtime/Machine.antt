-- ===== src/Server/Runtime/Machine.antt =====
-- Server as a whole: submissions, workers and the lifecycle calls, interleaved call by call.
pub mod States
mod Submits
pub mod Steps
use my_server.Common.{
  ℕ, suc, ◌+◌, ◌-◌, ◌<◌, ◌≤◌, ◌≡◌, ◌⊎◌, inl, inr, refl, sym, ap, ◌∙◌, true, false, none, some, List,
  [], ◌∷◌, arith, if◌then◌else◌, length, length-append, Option-cases, subst,
}
use my_server.Server.Types.{running, ShutdownMode}
use my_server.Server.Config.{ServerConfig}
use my_server.Server.Hooks.{ServerHookTable}
use my_server.Server.Metrics.{fetch_sub, u64}
use my_server.Server.Parts.{ServerParts, IsFifo}
use my_server.Server.Runtime.{
  Server, new_server, start, shutdown, wait, try_submit, try_pop_one, run_event, should_exit_worker,
  is_startable, pool_size,
}
use my_server.Server.Runtime.Submit.{try_submit_lem}
use my_server.Server.Runtime.Submission.{HasRoom, IsStored, IsRefused, IsSubmission}
use my_server.Server.Runtime.Processing.{pipeline, run_event_lem, IsAfter}
use my_server.Server.Runtime.Machine.States.{Machine, Step, Inv}
use my_server.Server.Runtime.Machine.Steps.{Step-Inv}

module _ (p : ServerParts) (contents : p.Queue → List p.Event) where
  -- What steps can make of a server that was just built.
  pub data Reach (first : Machine p) : Machine p → Type 0 where
    here : Reach first first
    next : {m n : Machine p} → Reach first m → Step p contents m n → Reach first n

  abbrev pub built : ServerConfig → ServerHookTable → p.Queue → p.World → Machine p
  built config hooks q w = record { server = new_server p config hooks q w; live = 0 }

  built-Inv :
      (config : ServerConfig) (hooks : ServerHookTable) (q : p.Queue) (w : p.World)
      → contents q ≡ []
      → Inv p contents (built config hooks q w)
  unfolding new_server
  built-Inv config hooks q w e = record {
    sync = rw e;
    small = rw e (omega arith);
    bound = λ h. rw e (omega arith);
    none_inflight = refl;
    idle = λ z. e;
    serving = λ h. absurd (cc h);
    startable = λ h. refl;
  }

  -- While each public call, and each round of a worker, takes effect as a whole before the next begins,
  -- and the queue stays below 2 ^ 64 - 1 events: a server that was built on an empty first-in first-out
  -- queue keeps its depth counter equal to the length of the queue, at most the capacity under
  -- backpressure, over any sequence of calls and rounds; when no worker is left, no event is. Between
  -- the accesses of calls that overlap, none of this need hold.
  pub Reach-Inv :
      (config : ServerConfig) (hooks : ServerHookTable) (q : p.Queue) (w : p.World)
      → IsFifo p contents
      → contents q ≡ []
      → (m : Machine p) → Reach (built config hooks q w) m
      → Inv p contents m
  Reach-Inv config hooks q w fifo e m r = go m r
    where
      go : (n : Machine p) → Reach (built config hooks q w) n → Inv p contents n
      go n here = built-Inv config hooks q w e
      go n (next {m = k} r s) = Step-Inv p contents fifo k n s (go k r)
