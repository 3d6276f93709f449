-- ===== src/Server/Tests.antt =====
-- Runs of the server, and the theorems about it at concrete inputs: events are numbers, an adapter
-- decodes all but 0, and the parts add up what they have seen.
use my_server.Server.Runtime.Drain.{worker_loop_drains, IsInSync, IsDrained}
use my_server.Server.Command.{select, Result, Command}
use my_server.Server.Runtime.Processing.{run_event_lem, IsAfter, pipeline}
use my_server.Server.Builder.{
  with_adapters, with_distributor, with_executor, with_queue, with_parser, new_builder, with_config,
  apply_all, PartStates, build, with_hooks, build_lem,
}
use my_server.Server.Runtime.{
  exited, run_event, shutdown, pool_size, Server, try_submit, try_pop_one, worker_loop, new_server,
  start,
}
use my_server.Server.Runtime.Machine.{here, next, Reach-Inv}
use my_server.Server.Runtime.Machine.States.{Machine, Inv, starts}
use Prim.Native.String.{String}
use my_server.Common.{
  Option, ℕ, ◌+◌, ◌≡◌, refl, true, none, some, [], ◌∷◌, arith, ◌==◌, if◌then◌else◌,
}
use my_server.Server.Config.{default_config}
use my_server.Server.Hooks.{noop_hooks, no_hooks}
use my_server.Server.Parts.{IsFifo, ServerParts}
use my_server.Server.Queue.{with_mutex_queue, with_mutex_queue-IsFifo, try_push, try_pop}
use my_server.Server.Runtime

abbrev adapter : ℕ → ℕ → ℕ × Option String
adapter e w = (w + e, (if e == 0 then none else some "select"))

abbrev command : String → ℕ → ℕ × Option Command
command input w = (w, some (select input []))

abbrev answer : Command → ℕ → ℕ × Option Result
answer c w = (w + 100, some (record { success = true; message = "ok"; rows = [] }))

abbrev deliver : Result → ℕ → ℕ
deliver r w = w + 10000

abbrev demo : ServerParts
demo = with_mutex_queue ℕ ℕ (adapter ∷ []) command answer deliver

demo-IsFifo : IsFifo demo (λ q. q)
demo-IsFifo = with_mutex_queue-IsFifo ℕ ℕ (adapter ∷ []) command answer deliver

unfoldable fresh : Server demo
unfolding new_server Runtime.build_listeners_from_config
fresh = new_server demo default_config noop_hooks [] 0

unfoldable busy : Server demo
unfolding fresh start try_submit Runtime.admit_event Runtime.push_event try_push
busy = (try_submit demo 0 (try_submit demo 7 (start demo fresh).0).0).0

busy_runs : (busy.queue ≡ 7 ∷ 0 ∷ []) × (busy.queued_approx ≡ 2) × (busy.metrics.accepted ≡ 2)
unfolding busy
busy_runs = (refl, refl, refl)

drain_runs : (worker_loop demo 5 busy).0.world ≡ 10107
unfolding busy worker_loop try_pop_one try_pop Runtime.run_event Runtime.process_event
    Runtime.after_decode Runtime.after_parse Runtime.after_execute Runtime.decode_from
    Runtime.should_exit_worker
drain_runs = refl

errors_run : (worker_loop demo 5 busy).0.metrics.error ≡ 1
unfolding busy worker_loop try_pop_one try_pop Runtime.run_event Runtime.process_event
    Runtime.after_decode Runtime.after_parse Runtime.after_execute Runtime.decode_from
    Runtime.should_exit_worker
errors_run = refl

run_event_lem_example : IsAfter demo busy (pipeline demo 0 busy.world) (run_event demo 0 busy)
unfolding busy
run_event_lem_example = run_event_lem demo 0 busy (omega arith)

busy-IsInSync : IsInSync demo (λ q. q) demo-IsFifo busy
unfolding busy
busy-IsInSync = record { sync = refl; small = omega arith; none_inflight = refl }

worker_loop_drains_example : IsDrained demo (λ q. q) demo-IsFifo busy (worker_loop demo 5 busy)
unfolding busy
worker_loop_drains_example =
    worker_loop_drains demo (λ q. q) demo-IsFifo 5 busy (omega arith) busy-IsInSync

abbrev serving_now : Machine demo
serving_now = record { server = (start demo fresh).0; live = 1 }

Reach-Inv_example : Inv demo (λ q. q) serving_now
unfolding fresh start
Reach-Inv_example =
    Reach-Inv demo (λ q. q) default_config noop_hooks [] 0 demo-IsFifo refl serving_now
      (next here (starts refl))

abbrev demo_states : PartStates
demo_states = record {
  parts = demo;
  Parser = ℕ;
  Executor = ℕ;
  Distributor = ℕ;
  Adapters = ℕ;
  assemble = λ a b c d. a + b + c + d;
  default_queue = [];
  default_parser = 0;
  default_executor = 0;
  default_distributor = 0;
  default_adapters = 0;
}

build_runs :
    build demo_states (
      apply_all demo_states
        (with_config default_config ∷ with_parser 1 ∷ [])
        (new_builder demo_states))
    ≡ none
unfolding build apply_all new_builder
build_runs = refl

build_lem_example :
    build demo_states (
      apply_all demo_states
        (with_config default_config
          ∷ with_parser 1
          ∷ with_hooks no_hooks
          ∷ with_parser 2
          ∷ with_queue (5 ∷ [])
          ∷ with_executor 10
          ∷ with_distributor 20
          ∷ with_adapters 30
          ∷ [])
        (new_builder demo_states))
    ≡ some (new_server demo default_config no_hooks (5 ∷ []) 62)
build_lem_example = build_lem demo_states (
    with_config default_config
    ∷ with_parser 1
    ∷ with_hooks no_hooks
    ∷ with_parser 2
    ∷ with_queue (5 ∷ [])
    ∷ with_executor 10
    ∷ with_distributor 20
    ∷ with_adapters 30
    ∷ [])
