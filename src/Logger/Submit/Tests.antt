-- ===== src/Logger/Submit/Tests.antt =====
-- Runs of the submission of envelopes, and the theorems about it at concrete inputs: an envelope is
-- its own text.
use my_server.Common.{some, [], ◌≡◌, refl, Bytes, codes, update}
use my_server.Common.Outcome.{after}
use my_server.Publisher.Registry
use my_server.Publisher.Registry.{TokenRegistry, new, acquire, resolve}
use my_server.Publisher.Registry.Invariant.{IsValid}
use my_server.Publisher.Registry.History.{fresh, acquired, History-IsValid}
use my_server.Publisher.Sinks.{Streams}
use my_server.Logger.Submit.{put_all, submit_impl, submit_impl_lem, cout}

buffer_runs : put_all 3 (codes "abcde") [] ≡ codes "abc"
unfolding put_all
buffer_runs = refl

-- The registry of the engine, whose constructor took token 0.
unfoldable one : TokenRegistry
unfolding new acquire Registry.pop_free_channel Registry.set_channel Registry.allocate_token
one = after new (acquire new)

one-IsValid : IsValid one
unfolding one
one-IsValid = History-IsValid (acquired 0 fresh refl)

abbrev text : Bytes → Bytes
text t = t

abbrev silent : Streams
silent = λ i. []

submit_run : submit_impl text one 0 (codes "hi") silent ≡ some (update silent cout (codes "hi"))
unfolding one resolve
submit_run = submit_impl_lem text one 0 3 (codes "hi") silent one-IsValid refl
