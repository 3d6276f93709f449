-- ===== src/Server/Runtime/Crew/Whole.antt =====
-- Server::processEvent, as the calls on the parts that it makes.
use Prim.Native.String.{String}
use my_server.Common.{ℕ, zero, suc, ◌≡◌, refl, Option, none, some}
use my_server.Server.Command.{Command, Result}
use my_server.Server.Hooks.{raw_input, command_built, result_ready}
use my_server.Server.Parts.{ServerParts}
use my_server.Server.Runtime.{
  Server, process_event, after_decode, after_parse, after_execute, decode_from,
}
use my_server.Server.Runtime.Submission.{fire-calls}
use my_server.Server.Runtime.Processing
use my_server.Server.Runtime.Processing.{pipeline}
use my_server.Server.Runtime.Crew.{Stage, decoding, finishing, advance, decoded, parsed, executed}

module _ (p : ServerParts) where
  -- `n` calls, one right after the other.
  unfoldable pub advances_all : ℕ → Stage p → Server p → Server p × Stage p
  advances_all zero h s = (s, h)
  advances_all (suc n) h s = let (t, k) = advance p h s in advances_all n k t

  executed-advances :
      (e : p.Event) (x : p.World × Option Result) (s : Server p)
      → advances_all 1 (executed p e x s).1 (executed p e x s).0
        ≡ (after_execute p x s, finishing e (Processing.executed p x).1)
  unfolding advances_all advance executed after_execute
  executed-advances e (w, none) s = refl
  executed-advances e (w, some res) s =
      rw (fire-calls p s.hooks.on_result_ready (result_ready res.message) (record s { world = w }))
        refl

  parsed-advances :
      (e : p.Event) (x : p.World × Option Command) (s : Server p)
      → advances_all 2 (parsed p e x s).1 (parsed p e x s).0
        ≡ (after_parse p x s, finishing e (Processing.parsed p x).1)
  unfolding advances_all advance parsed after_parse
  parsed-advances e (w, none) s = refl
  parsed-advances e (w, some cmd) s =
      rw
        (fire-calls p s.hooks.on_command_built (command_built "command built")
          (record s { world = w }))
        (executed-advances e (p.execute cmd w) _)

  decoded-advances :
      (e : p.Event) (x : p.World × Option String) (s : Server p)
      → advances_all 3 (decoded p e x s).1 (decoded p e x s).0
        ≡ (after_decode p x s, finishing e (Processing.decoded p x).1)
  unfolding advances_all advance decoded after_decode
  decoded-advances e (w, none) s = refl
  decoded-advances e (w, some input) s =
      rw (fire-calls p s.hooks.on_raw_input (raw_input input) (record s { world = w }))
        (parsed-advances e (p.parse input w) _)

  -- The four calls of an event, with no other thread between them, do to the server what `processEvent`
  -- does, and finish the event, well exactly where the plain pipeline succeeds.
  process_event-advances :
      (e : p.Event) (s : Server p)
      → advances_all 4 (decoding e) s ≡ (process_event p e s, finishing e (pipeline p e s.world).1)
  unfolding advances_all advance process_event
  process_event-advances e s = decoded-advances e (decode_from p p.adapters e s.world) s
