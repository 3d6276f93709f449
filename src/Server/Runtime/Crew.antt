-- ===== src/Server/Runtime/Crew.antt =====
-- Server::workerLoop and processEvent of app/include/server/server.h, taken apart: any number of workers
-- process events at once, and the calls that they make on the parts interleave with each other and with
-- submissions. A call on a part, with the hook after it, is one step.
pub mod Whole
pub mod Advance
pub mod Account
pub mod Delivered
mod Tests
use Prim.Native.String.{String}
use my_server.Common.{
  ℕ, Option, none, some, Bool, true, false, List, [], ◌∷◌, ◌++◌, ◌≡◌, if◌then◌else◌,
}
use my_server.Server.Types.{SubmitStatus, accepted}
use my_server.Server.Command.{Command, Result}
use my_server.Server.Hooks.{raw_input, command_built, result_ready, distributed}
use my_server.Server.Metrics.{inflight_inc, inflight_dec}
use my_server.Server.Parts.{ServerParts}
use my_server.Server.Runtime.{Server, fire, fail, decode_from, try_pop_one, try_submit}

module _ (p : ServerParts) where
  -- What a worker does next with its event; an event has ended well or not.
  pub data Stage : Type 0 where
    decoding : p.Event → Stage
    parsing : p.Event → String → Stage
    executing : p.Event → Command → Stage
    distributing : p.Event → Result → Stage
    finishing : p.Event → Bool → Stage

  unfoldable pub decoded : p.Event → p.World × Option String → Server p → Server p × Stage
  decoded e (w, none) s = (fail p "decode failed" (record s { world = w }), finishing e false)
  decoded e (w, some input) s =
      (fire p s.hooks.on_raw_input (raw_input input) (record s { world = w }), parsing e input)

  unfoldable pub parsed : p.Event → p.World × Option Command → Server p → Server p × Stage
  parsed e (w, none) s = (fail p "parse failed" (record s { world = w }), finishing e false)
  parsed e (w, some cmd) s = (
    fire p s.hooks.on_command_built (command_built "command built") (record s { world = w }),
    executing e cmd,
  )

  unfoldable pub executed : p.Event → p.World × Option Result → Server p → Server p × Stage
  executed e (w, none) s = (fail p "execution failed" (record s { world = w }), finishing e false)
  executed e (w, some res) s = (
    fire p s.hooks.on_result_ready (result_ready res.message) (record s { world = w }),
    distributing e res,
  )

  -- One call of `processEvent` on a part.
  unfoldable pub advance : Stage → Server p → Server p × Stage
  unfolding decoded parsed executed
  advance (decoding e) s = decoded e (decode_from p p.adapters e s.world) s
  advance (parsing e input) s = parsed e (p.parse input s.world) s
  advance (executing e cmd) s = executed e (p.execute cmd s.world) s
  advance (distributing e res) s = (
    fire p s.hooks.on_distributed (distributed "result distributed")
        (record s { world = p.distribute res s.world }),
    finishing e true,
  )
  advance (finishing e ok) s = (s, finishing e ok)

  -- `hands` has what each busy worker does next; `accepted_events` the events that submissions stored,
  -- `taken` those that workers took, and `done` those that are finished, each in order of time.
  pub record Crew : Type 0 where
    pub server : Server p
    pub hands : List Stage
    pub accepted_events : List p.Event
    pub taken : List p.Event
    pub done : List (p.Event × Bool)

  abbrev pub if_accepted : SubmitStatus → p.Event → List p.Event → List p.Event
  if_accepted accepted e es = es ++ (e ∷ [])
  if_accepted other e es = es

  pub data Step (c d : Crew) : Type 0 where
    submits :
        (e : p.Event)
        → d ≡ record c {
          server = (try_submit p e c.server).0;
          accepted_events = if_accepted (try_submit p e c.server).1 e c.accepted_events;
        }
        → Step c d
    takes :
        (e : p.Event) (s : Server p)
        → try_pop_one p c.server ≡ some (e, s)
        → d ≡ record c {
          server = record s { metrics = inflight_inc s.metrics };
          hands = decoding e ∷ c.hands;
          taken = c.taken ++ (e ∷ []);
        }
        → Step c d
    advances :
        (before after : List Stage) (h : Stage)
        → c.hands ≡ before ++ (h ∷ after)
        → d ≡ record c {
          server = (advance h c.server).0;
          hands = before ++ ((advance h c.server).1 ∷ after);
        }
        → Step c d
    finishes :
        (before after : List Stage) (e : p.Event) (ok : Bool)
        → c.hands ≡ before ++ (finishing e ok ∷ after)
        → d ≡ record c {
          server = record (c.server) { metrics = inflight_dec c.server.metrics };
          hands = before ++ after;
          done = c.done ++ ((e, ok) ∷ []);
        }
        → Step c d

  pub data Reach (first : Server p) : Crew → Type 0 where
    here :
        Reach first
          (record { server = first; hands = []; accepted_events = []; taken = []; done = [] })
    next : {c d : Crew} → Reach first c → Step c d → Reach first d
