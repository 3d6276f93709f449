-- ===== src/Publisher/Tests.antt =====
-- Runs of TokenRegistry and RegistrationHandle, and the theorems about them at concrete inputs.
use my_server.Common.{◌≡◌, refl, some, none}
use my_server.Common.Outcome.{done, after}
use my_server.Publisher.Types.{group0, to_index}
use my_server.Publisher.Registry
use my_server.Publisher.Registry.{
  TokenRegistry, new, acquire, acquire_group, release, resolve, max_bindings, capacity_exceeded,
  no_free_channels, already_free, invalid_token, no_channel,
}
use my_server.Publisher.Registry.Invariant.{IsValid}
use my_server.Publisher.Registry.History.{fresh, acquired, joined_group, History-IsValid}

-- Token 0 on an exclusive channel.
unfoldable one : TokenRegistry
unfolding new acquire Registry.pop_free_channel Registry.set_channel Registry.allocate_token
one = after new (acquire new)

acquire_runs : acquire new ≡ done one 0
unfolding one
acquire_runs = refl

-- Then token 1 in group 0.
unfoldable two : TokenRegistry
unfolding one acquire_group Registry.group_channel_for Registry.open_group Registry.set_group
    Registry.in_use to_index
two = after one (acquire_group group0 one)

join_runs : acquire_group group0 one ≡ done two 1
unfolding two
join_runs = refl

-- Then token 2 in the same group.
unfoldable three : TokenRegistry
unfolding two Registry.join_group
three = after two (acquire_group group0 two)

join_again_runs : acquire_group group0 two ≡ done three 2
unfolding three
join_again_runs = refl

resolve_runs : (resolve three 0 ≡ some 3) × (resolve three 1 ≡ some 2) × (resolve three 2 ≡ some 2)
unfolding three resolve
resolve_runs = (refl, refl, refl)

release_runs : resolve (after three (release 1 three)) 1 ≡ none
unfolding three resolve release Registry.give_back Registry.drop_user Registry.free_token
release_runs = refl

one-IsValid : IsValid one
one-IsValid = History-IsValid (acquired 0 fresh acquire_runs)

two-IsValid : IsValid two
two-IsValid = History-IsValid (joined_group group0 1 (acquired 0 fresh acquire_runs) join_runs)

History-IsValid_example : IsValid three
History-IsValid_example = History-IsValid (
    joined_group group0 2 (joined_group group0 1 (acquired 0 fresh acquire_runs) join_runs)
      join_again_runs)
