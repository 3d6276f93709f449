-- ===== src/Publisher/Sinks/Tests.antt =====
-- Runs of the publisher's runtime, and the theorems about it at concrete inputs.
use my_server.Common.{◌+◌, none, some, [], ◌≡◌, refl, codes}
use my_server.Publisher.Types.{terminal}
use my_server.Publisher.Registry
use my_server.Publisher.Registry.{TokenRegistry, new, acquire, resolve}
use my_server.Publisher.Registry.Invariant.{IsValid}
use my_server.Publisher.Registry.History.{fresh, acquired, History-IsValid}
use my_server.Publisher.Sinks.{
  OutputResourceStore, Streams, publish_view, write_channel, handle, write,
}
use my_server.Common.Outcome.{after}

-- Tokens 0 and 1 on the exclusive channels 3 and 2.
unfoldable one : TokenRegistry
unfolding new acquire Registry.pop_free_channel Registry.set_channel Registry.allocate_token
one = after new (acquire new)

unfoldable two : TokenRegistry
unfolding one
two = after one (acquire one)

two-IsValid : IsValid two
unfolding two
two-IsValid = History-IsValid (acquired 1 (acquired 0 fresh refl) refl)

-- Channel `c` has terminal `c + 1`.
abbrev own_terminals : OutputResourceStore
own_terminals = record { terminals = λ c. some (c + 1); files = λ c. none; sockets = λ c. none }

abbrev silent : Streams
silent = λ i. []

publish_runs :
    (s : Streams) × (publish_view terminal two own_terminals 1 (codes "hi") silent ≡ some s)
    × (s 3 ≡ codes "hi")
    × (s 4 ≡ [])
unfolding two resolve publish_view write_channel handle write
publish_runs = (_, refl, refl, refl)
