-- ===== src/Publisher/Handle/Crowd/Published.antt =====
-- Publications with the tokens of RegistrationHandles (registration_handle.hpp, publisher_runtime.hpp).
use my_server.Common.{◌^◌, ◌<◌, ◌+◌, ℕ, ◌≡◌, ◌≢◌, ◌++◌, some, Bytes}
use my_server.Publisher.Types.{PublishToken, exclusive, terminal}
use my_server.Publisher.Registry.{max_bindings, resolve}
use my_server.Publisher.Sinks.{OutputResourceStore, Streams, publish_view, publish_isolated}
use my_server.Publisher.Handle.Crowd.{Crowd, Reach, IsOwned, holding}
use my_server.Publisher.Handle.Crowd.Kept.{Reach-IsOwned}

-- Whatever the handles have gone through, operations that throw among them, of which fewer than
-- 2 ^ 64 - 257 have found no token left, and with a store in which no two channels have one terminal:
-- where two handles hold tokens of one registry, and the channel of the first is exclusive, a
-- publication to a terminal with the token of the second goes to the terminal of its own channel, and
-- the terminal of the first receives nothing.
pub publishes_apart :
    (s : Crowd) (store : OutputResourceStore) (k l i : ℕ) (t u : PublishToken) (c d m n : ℕ)
    (text : Bytes) (streams : Streams)
    → s.starved + max_bindings + 1 < 2 ^ 64
    → Reach s
    → ((a b j : ℕ) → store.terminals a ≡ some j → store.terminals b ≡ some j → a ≡ b)
    → k ≢ l
    → holding (s.handles k) ≡ some (i, t)
    → holding (s.handles l) ≡ some (i, u)
    → resolve (s.registries i) t ≡ some c
    → resolve (s.registries i) u ≡ some d
    → (s.registries i).channel_mode c ≡ exclusive
    → store.terminals c ≡ some m
    → store.terminals d ≡ some n
    → (after : Streams) × (publish_view terminal (s.registries i) store u text streams ≡ some after)
      × (after m ≡ streams m)
      × (after n ≡ streams n ++ text)
publishes_apart s store k l i t u c d m n text streams small r own ne hk hl et eu alone em en =
    publish_isolated (s.registries i) store u t c d m n text streams (o.registries i).consistent own
      alone et eu (λ same. ne (o.unique k l i u (rw same hk) hl)) em en
  where
    o : IsOwned s.starved s.registries (λ j. holding (s.handles j))
    o = Reach-IsOwned s small r
