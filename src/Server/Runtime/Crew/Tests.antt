-- ===== src/Server/Runtime/Crew/Tests.antt =====
-- Two workers with an event each, and the theorems about such workers at that run: an event is a number,
-- an adapter decodes all but 0, and the distributor counts its calls.
use my_server.Server.Runtime.Crew.Delivered.{IsMeter, all_delivered}
use my_server.Server.Metrics.{u64}
use my_server.Server.Runtime.Crew.Account.{Reach-IsAccounted, tally, IsAccounted}
use Prim.Native.String.{String}
use my_server.Common.{
  not, ◌%◌, Bool, ℕ, ◌+◌, ◌≡◌, refl, Option, none, some, true, false, [], ◌∷◌, if◌then◌else◌, ◌==◌,
}
use my_server.Server.Command.{Command, Result, select}
use my_server.Server.Config.{default_config}
use my_server.Server.Hooks.{noop_hooks}
use my_server.Server.Parts.{ServerParts, IsFifo}
use my_server.Server.Queue.{with_mutex_queue, with_mutex_queue-IsFifo, try_push, try_pop}
use my_server.Server.Runtime
use my_server.Server.Runtime.{Server, new_server, start, try_submit, try_pop_one, process_event}
use my_server.Server.Runtime.Crew.{
  distributing, executing, parsing, finishes, Crew, Reach, here, next, submits, takes, advances,
  advance, decoding, finishing,
}

abbrev adapter : ℕ → ℕ → ℕ × Option String
adapter e w = (w, (if e == 0 then none else some "select"))

abbrev command : String → ℕ → ℕ × Option Command
command input w = (w, some (select input []))

abbrev answer : Command → ℕ → ℕ × Option Result
answer c w = (w, some (record { success = true; message = "ok"; rows = [] }))

abbrev deliver : Result → ℕ → ℕ
deliver r w = w + 1

abbrev demo : ServerParts
demo = with_mutex_queue ℕ ℕ (adapter ∷ []) command answer deliver

demo-IsFifo : IsFifo demo (λ q. q)
demo-IsFifo = with_mutex_queue-IsFifo ℕ ℕ (adapter ∷ []) command answer deliver

unfoldable running_server : Server demo
unfolding new_server Runtime.build_listeners_from_config start
running_server = (start demo (new_server demo default_config noop_hooks [] 0)).0

-- Both workers have taken an event, and the second one fails to decode its own.
raced :
    (c : Crew demo) × Reach demo running_server c
    × (c.accepted_events ≡ 7 ∷ 0 ∷ [])
    × (c.hands ≡ finishing 0 false ∷ decoding 7 ∷ [])
unfolding running_server try_submit Runtime.admit_event Runtime.push_event try_push try_pop_one
    try_pop advance Runtime.decode_from
raced = (
  _,
  next
      (next (next (next (next here (submits 7 refl)) (submits 0 refl)) (takes 7 _ refl refl))
        (takes 0 _ refl refl))
      (advances [] (decoding 7 ∷ []) (decoding 0) refl refl),
  refl,
  refl,
)

Reach-IsAccounted_example : IsAccounted demo (λ q. q) demo-IsFifo raced.0
unfolding running_server
Reach-IsAccounted_example =
    Reach-IsAccounted demo (λ q. q) demo-IsFifo running_server refl refl {c = raced.0} raced.1

-- The same run to its end.
completed :
    (c : Crew demo) × Reach demo running_server c
    × (c.hands ≡ [])
    × (c.server.queue ≡ [])
    × (c.accepted_events ≡ 7 ∷ 0 ∷ [])
    × (c.done ≡ (0, false) ∷ (7, true) ∷ [])
unfolding running_server try_submit Runtime.admit_event Runtime.push_event try_push try_pop_one
    try_pop advance Runtime.decode_from raced
completed = (
  _,
  next
      (next
        (next
          (next
            (next (next raced.1 (finishes [] (decoding 7 ∷ []) 0 false refl refl))
              (advances [] [] (decoding 7) refl refl))
            (advances [] [] (parsing 7 "select") refl refl))
          (advances [] [] (executing 7 (select "select" [])) refl refl))
        (advances [] [] (distributing 7 (record { success = true; message = "ok"; rows = [] })) refl
          refl))
      (finishes [] [] 7 true refl refl),
  refl,
  refl,
  refl,
  refl,
)

counts_deliveries : IsMeter demo (λ w. w)
counts_deliveries = record {
  delivers = λ res w. refl;
  adapts = (λ e w. refl, tt);
  parses = λ input w. refl;
  executes = λ cmd w. refl;
}

all_delivered_example :
    ((f : ℕ → Bool)
      → tally f completed.0.accepted_events ≡ tally (λ (d : ℕ × Bool). f d.0) completed.0.done)
    × (completed.0.server.world
        ≡ running_server.world + tally (λ (d : ℕ × Bool). d.1) completed.0.done)
    × (completed.0.server.metrics.error % u64
        ≡ (running_server.metrics.error + tally (λ (d : ℕ × Bool). not d.1) completed.0.done) % u64)
unfolding running_server
all_delivered_example =
    all_delivered demo (λ w. w) counts_deliveries running_server (λ q. q) demo-IsFifo completed.0
      refl refl completed.1 completed.2 completed.3
