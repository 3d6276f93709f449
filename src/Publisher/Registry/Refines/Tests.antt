-- ===== src/Publisher/Registry/Refines/Tests.antt =====
-- A session with TokenRegistry, and the theorems on its book at it.
use my_server.Publisher.Registry
use my_server.Publisher.Registry.{max_groups, shared, resolve, TokenRegistry, new}
use my_server.Publisher.Registry.Invariant.{IsValid, new-IsValid}
use my_server.Publisher.Registry.Book.{
  Response, answered, refused, Promises, empty_book, token, released, Call,
}
use my_server.Publisher.Registry.Refines.{to_option, view, perform}
use my_server.Publisher.Registry.Refines.Calls.{Meets, perform-Meets}
use my_server.Publisher.Registry.Refines.Sessions.{Observes, sessions_refine, session_isolates}
use my_server.Common.{arith, ◌<◌, ℕ, some, ◌≡◌, refl, List, [], ◌∷◌}
use my_server.Common.Outcome.{after}
use my_server.Common.Traces.{Trace}
use my_server.Publisher.Types
use my_server.Publisher.Types.{group0}

-- Token 0 on an exclusive channel, token 1 in group 0, token 0 given back, and given back again.
abbrev calls : List (Call × Response)
calls =
    (Call.acquire, answered (token 0))
    ∷ (Call.acquire_group group0, answered (token 1))
    ∷ (Call.release 0, answered released)
    ∷ (Call.release 0, refused Registry.already_free)
    ∷ []

unfoldable first : TokenRegistry
unfolding perform new Registry.acquire Registry.pop_free_channel Registry.set_channel
    Registry.allocate_token
first = after new (perform Call.acquire new)

unfoldable second : TokenRegistry
unfolding first Registry.acquire_group Registry.group_channel_for Registry.open_group
    Registry.set_group Registry.in_use Types.to_index
second = after first (perform (Call.acquire_group group0) first)

unfoldable third : TokenRegistry
unfolding second Registry.release Registry.give_back Registry.drop_user Registry.free_token
third = after second (perform (Call.release 0) second)

session : Trace Observes new calls third
unfolding third
session =
    Trace.later _ refl
      (Trace.later _ refl (Trace.later _ refl (Trace.later _ (refl, λ e. cc) Trace.here)))

sessions_refine_example : IsValid third × Trace Promises empty_book calls (view third)
sessions_refine_example = sessions_refine third session

perform-Meets_example :
    Meets new (Call.acquire_group group0) (perform (Call.acquire_group group0) new)
perform-Meets_example = perform-Meets new (Call.acquire_group group0) new-IsValid

-- Two tokens of group 0.
abbrev twice : List (Call × Response)
twice =
    (Call.acquire_group group0, answered (token 0))
    ∷ (Call.acquire_group group0, answered (token 1))
    ∷ []

unfoldable alone : TokenRegistry
unfolding perform new Registry.acquire_group Registry.group_channel_for Registry.open_group
    Registry.set_group Registry.in_use Types.to_index Registry.pop_free_channel Registry.set_channel
    Registry.allocate_token
alone = after new (perform (Call.acquire_group group0) new)

unfoldable paired : TokenRegistry
unfolding alone Registry.join_group
paired = after alone (perform (Call.acquire_group group0) alone)

pairing : Trace Observes new twice paired
unfolding paired
pairing = Trace.later _ refl (Trace.later _ refl Trace.here)

paired_runs : (resolve paired 0 ≡ some 3) × (resolve paired 1 ≡ some 3)
unfolding paired resolve
paired_runs = (refl, refl)

session_isolates_example :
    (paired.channel_mode 3 ≡ shared)
    × ((g : ℕ) × (g < max_groups)
        × (to_option (paired.group_to_channel g) ≡ some 3)
        × ((h : ℕ) → h < max_groups → to_option (paired.group_to_channel h) ≡ some 3 → h ≡ g))
session_isolates_example =
    session_isolates paired 0 1 3 pairing (λ e. omega arith) paired_runs.0 paired_runs.1
