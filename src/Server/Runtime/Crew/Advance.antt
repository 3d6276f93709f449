-- ===== src/Server/Runtime/Crew/Advance.antt =====
-- Server::processEvent: what a worker's call on a part leaves alone.
use my_server.Common.{none, some, arith, Option, ◌≡◌}
use my_server.Server.Parts.{ServerParts}
use my_server.Server.Runtime.{String, Result, Command, decode_from, Server}
use my_server.Server.Runtime.Crew.{
  Stage, decoding, parsing, executing, distributing, finishing, advance, decoded, parsed, executed,
}

module _ (p : ServerParts) where
  abbrev pub event_of : Stage p → p.Event
  event_of (decoding e) = e
  event_of (parsing e input) = e
  event_of (executing e cmd) = e
  event_of (distributing e res) = e
  event_of (finishing e ok) = e

  -- What a call on a part leaves alone.
  pub record IsAdvance (e : p.Event) (s : Server p) (r : Server p × Stage p) : Type 0 where
    pub same_event : event_of r.1 ≡ e
    pub same_queue : r.0.queue ≡ s.queue
    pub same_inflight : r.0.metrics.inflight ≡ s.metrics.inflight

  decoded-IsAdvance :
      (e : p.Event) (x : p.World × Option String) (s : Server p) → IsAdvance e s (decoded p e x s)
  unfolding decoded
  decoded-IsAdvance e (w, none) s = ground arith
  decoded-IsAdvance e (w, some input) s = ground arith

  parsed-IsAdvance :
      (e : p.Event) (x : p.World × Option Command) (s : Server p) → IsAdvance e s (parsed p e x s)
  unfolding parsed
  parsed-IsAdvance e (w, none) s = ground arith
  parsed-IsAdvance e (w, some cmd) s = ground arith

  executed-IsAdvance :
      (e : p.Event) (x : p.World × Option Result) (s : Server p) → IsAdvance e s (executed p e x s)
  unfolding executed
  executed-IsAdvance e (w, none) s = ground arith
  executed-IsAdvance e (w, some res) s = ground arith

  pub advance-IsAdvance : (h : Stage p) (s : Server p) → IsAdvance (event_of h) s (advance p h s)
  unfolding advance
  advance-IsAdvance (decoding e) s = decoded-IsAdvance e (decode_from p p.adapters e s.world) s
  advance-IsAdvance (parsing e input) s = parsed-IsAdvance e (p.parse input s.world) s
  advance-IsAdvance (executing e cmd) s = executed-IsAdvance e (p.execute cmd s.world) s
  advance-IsAdvance (distributing e res) s = ground arith
  advance-IsAdvance (finishing e ok) s = ground arith
