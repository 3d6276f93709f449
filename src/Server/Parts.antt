-- ===== src/Server/Parts.antt =====
-- app/include/server/pipeline.hpp and the template parameters of Server (app/include/server/server.h):
-- the queue, the protocol adapters, the parser, the executor and the distributor that the user
-- plugs in. A call may change the part's own state, which `World` holds for all of them.
use Prim.Native.String.{String}
use my_server.Common.{◌≡◌, Option, none, some, List, [], ◌∷◌, ◌++◌}
use my_server.Server.Command.{Command, Result}

pub record ServerParts : Type 1 where
  pub Event : Type 0
  pub Queue : Type 0
  pub World : Type 0
  -- `none` stands for `false`, and leaves the queue as it was.
  pub try_push : Queue → Event → Option Queue
  pub try_pop : Queue → Option (Event × Queue)
  -- One function for each adapter, in the order of the pack.
  pub adapters : List (Event → World → World × Option String)
  pub parse : String → World → World × Option Command
  pub execute : Command → World → World × Option Result
  pub distribute : Result → World → World

-- The queue is a first-in first-out queue, with `contents` oldest first.
pub record IsFifo (p : ServerParts) (contents : p.Queue → List p.Event) : Type 0 where
  pub pushed :
      (q r : p.Queue) (e : p.Event) → p.try_push q e ≡ some r → contents r ≡ contents q ++ (e ∷ [])
  pub popped :
      (q r : p.Queue) (e : p.Event) → p.try_pop q ≡ some (e, r) → contents q ≡ e ∷ contents r
  pub empty : (q : p.Queue) → p.try_pop q ≡ none → contents q ≡ []
