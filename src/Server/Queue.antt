-- ===== src/Server/Queue.antt =====
-- SimpleMutexQueue of app/include/server/server.h: a vector under a mutex, so each call is one
-- step.
use Prim.Native.String.{String}
use my_server.Common.{arith, ◌≡◌, refl, Option, none, some, List, [], ◌∷◌, ◌++◌}
use my_server.Server.Command.{Command, Result}
use my_server.Server.Parts.{ServerParts, IsFifo}

module _ {T : Type 0} where
  -- `push_back`; it always succeeds.
  unfoldable pub try_push : List T → T → Option (List T)
  try_push queue value = some (queue ++ (value ∷ []))

  -- `front` and `erase(begin())`.
  unfoldable pub try_pop : List T → Option (T × List T)
  try_pop [] = none
  try_pop (x ∷ rest) = some (x, rest)

-- A server's parts with this queue.
abbrev pub with_mutex_queue :
    (Event World : Type 0)
    → List (Event → World → World × Option String)
    → (String → World → World × Option Command)
    → (Command → World → World × Option Result)
    → (Result → World → World)
    → ServerParts
with_mutex_queue Event World adapters parse execute distribute = record {
  Event = Event;
  Queue = List Event;
  World = World;
  try_push = try_push;
  try_pop = try_pop;
  adapters = adapters;
  parse = parse;
  execute = execute;
  distribute = distribute;
}

-- A vector as a queue is first-in first-out: its contents are the vector.
pub with_mutex_queue-IsFifo :
    (Event World : Type 0) (adapters : List (Event → World → World × Option String))
    (parse : String → World → World × Option Command)
    (execute : Command → World → World × Option Result) (distribute : Result → World → World)
    → IsFifo (with_mutex_queue Event World adapters parse execute distribute) (λ q. q)
unfolding try_push try_pop
with_mutex_queue-IsFifo Event World adapters parse execute distribute = record {
  pushed = λ q r e h. ground arith;
  popped = pops;
  empty = none_left;
}
  where
    pops : (q r : List Event) (e : Event) → try_pop q ≡ some (e, r) → q ≡ e ∷ r
    pops [] r e h = absurd (cc h)
    pops (x ∷ q) r e h = ground arith

    none_left : (q : List Event) → try_pop q ≡ none → q ≡ []
    none_left [] h = refl
    none_left (x ∷ q) h = absurd (cc h)
