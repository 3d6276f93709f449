-- ===== src/Server/Runtime.antt =====
-- The class Server of app/include/server/server.h. Each method is a function from states to states;
-- the atomics are fields.
pub mod Submission
pub mod Submit
pub mod Processing
pub mod Machine
pub mod Drain
pub mod Crew
use Prim.Native.String.{String}
use my_server.Common.{
  zero, ◌%◌, ◌^◌, ◌^◌, ◌%◌, suc, ℕ, ◌+◌, Bool, true, false, not, ◌&&◌, Option, none, some, List, [],
  ◌∷◌, map, leb, ◌==◌, if◌then◌else◌,
}
use my_server.Server.Types.{
  ServerState, created, running, stopping, stopped, failed, ShutdownMode, graceful, force,
  SubmitStatus, accepted, rejected_full, rejected_stopped, invalid,
}
use my_server.Server.Command.{Result, Command}
use my_server.Server.Config.{ServerConfig, ListenerConfig, ListenerRuntime}
use my_server.Server.Hooks.{
  ServerHookTable, HookCall, event_received, submit_result, raw_input, command_built, result_ready,
  distributed, failure,
}
use my_server.Server.Metrics.{
  MetricsMixin, ServerMetrics, no_metrics, fetch_add, fetch_sub, on_accepted, on_rejected_full,
  on_rejected_stopped, on_invalid, on_error, inflight_inc, inflight_dec, snapshot,
}
use my_server.Server.Parts.{ServerParts}

-- `world` is the state of the parts, `calls` the calls of hooks, latest first, and `workers` the
-- size of `workers_`.
pub record Server (p : ServerParts) : Type 0 where
  pub config : ServerConfig
  pub hooks : ServerHookTable
  pub queue : p.Queue
  pub world : p.World
  pub metrics : MetricsMixin
  pub state : ServerState
  pub shutdown_mode : ShutdownMode
  pub stop_requested : Bool
  pub queued_approx : ℕ
  pub listeners : List ListenerRuntime
  pub workers : ℕ
  pub calls : List (HookCall p.Event)

unfoldable pub build_listeners_from_config : List ListenerConfig → List ListenerRuntime
build_listeners_from_config =
    map λ cfg. record { port = cfg.port; protocol = cfg.protocol; enabled = cfg.enabled }

abbrev pub is_running : ServerState → Bool
is_running s = elim s [ running ↦ true | _ ↦ false ]

abbrev pub is_startable : ServerState → Bool
is_startable s = elim s [ created ↦ true | stopped ↦ true | _ ↦ false ]

abbrev pub is_over : ServerState → Bool
is_over s = elim s [ stopped ↦ true | failed ↦ true | _ ↦ false ]

-- A configured count of 0 stands for one worker.
abbrev pub pool_size : ServerConfig → ℕ
pool_size c = let count = c.execution.worker_count in if count == 0 then 1 else count

-- How a run of `workerLoop` stops: by its `break`, or at the wait for the condition variable.
pub data LoopEnd : Type 0 where
  exited waiting out_of_fuel : LoopEnd

module _ (p : ServerParts) where
  unfoldable pub new_server : ServerConfig → ServerHookTable → p.Queue → p.World → Server p
  unfolding build_listeners_from_config
  new_server config hooks queue world = record {
    config = config;
    hooks = hooks;
    queue = queue;
    world = world;
    metrics = no_metrics;
    state = created;
    shutdown_mode = graceful;
    stop_requested = false;
    queued_approx = 0;
    listeners = build_listeners_from_config config.listeners;
    workers = 0;
    calls = [];
  }

  -- Two compare-and-exchanges: from `created`, else from `stopped`.
  unfoldable pub start : Server p → Server p × Bool
  start s =
      if is_startable s.state
      then (
        record s {
          state = running;
          stop_requested = false;
          queued_approx = 0;
          workers = s.workers + pool_size s.config;
        },
        true,
      )
      else (s, false)

  unfoldable pub shutdown : ShutdownMode → Server p → Server p
  shutdown mode s =
      if is_over s.state
      then record s { shutdown_mode = mode }
      else record s { shutdown_mode = mode; state = stopping; stop_requested = true }

  -- `wait` after every worker has left its loop.
  unfoldable pub wait : Server p → Server p × Bool
  wait s = (record s { workers = 0; state = elim s.state [ failed ↦ failed | _ ↦ stopped ] }, true)

  -- The destructor, with `wait` as above.
  unfoldable pub destroy_server : Server p → Server p
  unfolding shutdown wait
  destroy_server s = (wait (shutdown force s)).0

  -- A hook is called if it is set.
  abbrev pub fire : Bool → HookCall p.Event → Server p → Server p
  fire true c s = record s { calls = c ∷ s.calls }
  fire false c s = s

  abbrev pub validate_event : p.Event → Bool
  validate_event e = true

  -- The end of `trySubmit`: the counter, the hook and the status.
  abbrev pub reply :
      (MetricsMixin → MetricsMixin) → SubmitStatus → Server p → Server p × SubmitStatus
  reply on status s = (
    fire s.hooks.on_submit_result (submit_result status) (record s { metrics = on s.metrics }),
    status,
  )

  -- `trySubmit` from `tryPush` on.
  unfoldable pub push_event : p.Event → Server p → Server p × SubmitStatus
  push_event e s = elim (p.try_push s.queue e) [
    | none ↦ reply on_rejected_full rejected_full s
    | some q ↦
        reply on_accepted accepted
          (record s { queue = q; queued_approx = fetch_add s.queued_approx })
  ]

  unfoldable pub admit_event : p.Event → Server p → Server p × SubmitStatus
  admit_event e s =
      if not (is_running s.state)
      then reply on_rejected_stopped rejected_stopped s
      else if not (validate_event e)
      then reply on_invalid invalid s
      else if s.config.execution.enable_backpressure
          && leb s.config.execution.queue_capacity s.queued_approx
      then reply on_rejected_full rejected_full s
      else push_event e s

  unfoldable pub try_submit : p.Event → Server p → Server p × SubmitStatus
  try_submit e s = admit_event e (fire s.hooks.on_event_received (event_received e) s)

  unfoldable pub metrics : Server p → ServerMetrics
  unfolding snapshot
  metrics s = snapshot s.metrics s.queued_approx

  unfoldable pub try_pop_one : Server p → Option (p.Event × Server p)
  try_pop_one s = elim (p.try_pop s.queue) [
    | none ↦ none
    | some (e, q) ↦ some (e, record s { queue = q; queued_approx = fetch_sub s.queued_approx })
  ]

  unfoldable pub should_exit_worker : Server p → Bool
  should_exit_worker s =
      if not s.stop_requested
      then false
      else elim s.shutdown_mode [ force ↦ true | graceful ↦ s.queued_approx == 0 ]

  -- The adapters from one on, in order, until one decodes the event.
  unfoldable pub decode_from :
      List (p.Event → p.World → p.World × Option String)
      → p.Event
      → p.World
      → p.World × Option String
  decode_from [] e w = (w, none)
  decode_from (adapter ∷ rest) e w =
      let (w', text) = adapter e w in
      let later = decode_from rest e w' in elim text [ some view ↦ (w', some view) | none ↦ later ]

  -- A stage failed: it counts and is reported, and the event is dropped.
  abbrev pub fail : String → Server p → Server p
  fail why s = fire s.hooks.on_error (failure why) (record s { metrics = on_error s.metrics })

  -- `processEvent` from what the executor returned on.
  unfoldable pub after_execute : p.World × Option Result → Server p → Server p
  after_execute (w, none) s = fail "execution failed" (record s { world = w })
  after_execute (w, some res) s =
      let ready =
        fire s.hooks.on_result_ready (result_ready res.message) (record s { world = w }) in
      fire s.hooks.on_distributed (distributed "result distributed")
        (record ready { world = p.distribute res ready.world })

  -- From what the parser returned on.
  unfoldable pub after_parse : p.World × Option Command → Server p → Server p
  after_parse (w, none) s = fail "parse failed" (record s { world = w })
  after_parse (w, some cmd) s =
      let built =
        fire s.hooks.on_command_built (command_built "command built") (record s { world = w }) in
      after_execute (p.execute cmd built.world) built

  -- From what the adapters returned on.
  unfoldable pub after_decode : p.World × Option String → Server p → Server p
  after_decode (w, none) s = fail "decode failed" (record s { world = w })
  after_decode (w, some input) s =
      let read = fire s.hooks.on_raw_input (raw_input input) (record s { world = w }) in
      after_parse (p.parse input read.world) read

  unfoldable pub process_event : p.Event → Server p → Server p
  process_event e s = after_decode (decode_from p.adapters e s.world) s

  -- One event of `workerLoop`, between its two marks.
  unfoldable pub run_event : p.Event → Server p → Server p
  run_event e s =
      let s' = process_event e (record s { metrics = inflight_inc s.metrics }) in
      record s' { metrics = inflight_dec s'.metrics }

  -- A `workers_.size()` of 2 ^ 32 or more is cut to 32 bits.
  unfoldable pub concurrency : Server p → ℕ
  concurrency s = s.workers % 2 ^ 32

  -- `workerLoop` on fuel, one round for each event.
  unfoldable pub worker_loop : ℕ → Server p → Server p × LoopEnd
  worker_loop zero s = (s, out_of_fuel)
  worker_loop (suc fuel) s = elim (try_pop_one s) [
    | some (e, s') ↦ worker_loop fuel (run_event e s')
    | none ↦ (s, (if should_exit_worker s then exited else waiting))
  ]
