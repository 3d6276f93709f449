-- ===== src/Server/Runtime/Processing.antt =====
-- Server::processEvent and the round of workerLoop around it, against the plain pipeline: decode,
-- parse, execute, distribute.
use my_server.Server.Runtime.Submission.{fire-calls}
use Prim.Native.String.{String}
use my_server.Common.{List, ◌<◌, ◌≡◌, Bool, true, false, Option, none, some, arith, if◌then◌else◌}
use my_server.Server.Command.{Command, Result}
use my_server.Server.Metrics.{inflight_inc, u64, fetch_add}
use my_server.Server.Parts.{ServerParts}
use my_server.Server.Runtime.{
  raw_input, command_built, HookCall, after_execute, after_decode, after_parse, run_event,
  process_event, Server, decode_from,
}

module _ (p : ServerParts) where
  -- The parts alone: the world after the event, and whether every stage succeeded.
  abbrev pub executed : p.World × Option Result → p.World × Bool
  executed (w, none) = (w, false)
  executed (w, some res) = (p.distribute res w, true)

  abbrev pub parsed : p.World × Option Command → p.World × Bool
  parsed (w, none) = (w, false)
  parsed (w, some cmd) = executed (p.execute cmd w)

  abbrev pub decoded : p.World × Option String → p.World × Bool
  decoded (w, none) = (w, false)
  decoded (w, some input) = parsed (p.parse input w)

  abbrev pub pipeline : p.Event → p.World → p.World × Bool
  pipeline e w = decoded (decode_from p p.adapters e w)

  -- The state `t` is `s` after an event that ended in `r`: a failed event adds an error.
  pub record IsAfter (s : Server p) (r : p.World × Bool) (t : Server p) : Type 0 where
    pub world : t.world ≡ r.0
    pub metrics :
        t.metrics
        ≡ (if r.1 then s.metrics else record s.metrics { error = fetch_add s.metrics.error })
    pub same_queue : t.queue ≡ s.queue
    pub same_depth : t.queued_approx ≡ s.queued_approx
    pub same_state : t.state ≡ s.state
    pub same_config : t.config ≡ s.config
    pub same_mode : t.shutdown_mode ≡ s.shutdown_mode
    pub same_stop : t.stop_requested ≡ s.stop_requested
    pub same_workers : t.workers ≡ s.workers

  -- What a stage does before the next leaves all but the world and the calls.
  staged :
      (s : Server p) (w : p.World) (l : List (HookCall p.Event)) (r : p.World × Bool) (t : Server p)
      → IsAfter (record s { world = w; calls = l }) r t
      → IsAfter s r t
  staged s w l r t a = record {
    world = a.world;
    metrics = a.metrics;
    same_queue = a.same_queue;
    same_depth = a.same_depth;
    same_state = a.same_state;
    same_config = a.same_config;
    same_mode = a.same_mode;
    same_stop = a.same_stop;
    same_workers = a.same_workers;
  }

  after_execute_lem :
      (x : p.World × Option Result) (s : Server p) → IsAfter s (executed x) (after_execute p x s)
  unfolding after_execute
  after_execute_lem (w, none) s = ground arith
  after_execute_lem (w, some res) s = ground arith

  after_parse_lem :
      (x : p.World × Option Command) (s : Server p) → IsAfter s (parsed x) (after_parse p x s)
  unfolding after_parse
  after_parse_lem (w, none) s = ground arith
  after_parse_lem (w, some cmd) s =
      rw
        (fire-calls p s.hooks.on_command_built (command_built "command built")
          (record s { world = w }))
        (staged s w _ _ _ (after_execute_lem (p.execute cmd w) _))

  after_decode_lem :
      (x : p.World × Option String) (s : Server p) → IsAfter s (decoded x) (after_decode p x s)
  unfolding after_decode
  after_decode_lem (w, none) s = ground arith
  after_decode_lem (w, some input) s =
      rw (fire-calls p s.hooks.on_raw_input (raw_input input) (record s { world = w }))
        (staged s w _ _ _ (after_parse_lem (p.parse input w) _))

  process_event_lem :
      (e : p.Event) (s : Server p) → IsAfter s (pipeline e s.world) (process_event p e s)
  unfolding process_event
  process_event_lem e s = after_decode_lem (decode_from p p.adapters e s.world) s

  -- An event of the worker, with fewer than 2 ^ 64 in flight, does to the parts what the plain pipeline
  -- does, counts one error exactly when a stage failed and changes no other counter, the number in
  -- flight restored, and leaves the queue, the depth, the configuration and the lifecycle alone.
  pub run_event_lem :
      (e : p.Event) (s : Server p)
      → s.metrics.inflight < u64
      → IsAfter s (pipeline e s.world) (run_event p e s)
  unfolding run_event
  run_event_lem e s h =
      ground (arith, process_event_lem e (record s { metrics = inflight_inc s.metrics }))
