-- ===== src/Publisher/Handle/Crowd/Tests.antt =====
-- Two RegistrationHandles on one registry, through their lives.
use my_server.Publisher.Sinks.{OutputResourceStore, Streams, publish_view}
use my_server.Publisher.Handle.Crowd.Published.{publishes_apart}
use my_server.Common.{codes, ◌+◌, []}
use my_server.Common.{◌≤◌, ℕ, ◌≡◌, refl, none, some, arith, update}
use my_server.Common.Outcome.{done, threw, fault}
use my_server.Publisher.Types
use my_server.Publisher.Types.{terminal, PublishToken, group0, max_groups}
use my_server.Publisher.Registry
use my_server.Publisher.Registry.{new, resolve, max_channels, no_channel}
use my_server.Publisher.Handle.{
  RegistrationHandle, Registries, detached, new_exclusive, new_grouped, move_assign, valid,
}
use my_server.Publisher.Handle.Crowd.{
  Crowd, nobody, Reach, here, next, builds, builds_grouped, assigns, holding, IsOwned,
}
use my_server.Publisher.Handle.Crowd.Kept.{Reach-IsOwned}
use my_server.Publisher.Handle.Crowd.Ended.{IsUnused, destroy_all, all_given_back}

-- Handle 0 on an exclusive channel of registry 0.
unfoldable first : Registries × RegistrationHandle
unfolding new_exclusive new Registry.acquire Registry.pop_free_channel Registry.set_channel
    Registry.allocate_token
first = elim (new_exclusive 0 nobody.registries) [
  | done rs h ↦ (rs, h)
  | threw rs e ↦ (rs, detached)
  | fault ↦ (nobody.registries, detached)
]

abbrev one_handle : Crowd
one_handle = record { starved = 0; registries = first.0; handles = update nobody.handles 0 first.1 }

-- Handle 1 in group 0.
unfoldable second : Registries × RegistrationHandle
unfolding first new_grouped Registry.acquire_group Registry.group_channel_for Registry.open_group
    Registry.set_group Registry.in_use Types.to_index
second = elim (new_grouped 0 group0 first.0) [
  | done rs h ↦ (rs, h)
  | threw rs e ↦ (rs, detached)
  | fault ↦ (first.0, detached)
]

abbrev two_handles : Crowd
two_handles = record {
  starved = 0;
  registries = second.0;
  handles = update one_handle.handles 1 second.1;
}

-- Handle 1 is assigned to handle 0.
unfoldable third : Registries × RegistrationHandle × RegistrationHandle
unfolding second move_assign valid Registry.release Registry.give_back Registry.drop_user
    Registry.free_token
third = elim (move_assign first.1 second.1 second.0) [
  | none ↦ (second.0, detached, detached)
  | some r ↦ r
]

abbrev assigned : Crowd
assigned = record {
  starved = 0;
  registries = third.0;
  handles = update (update two_handles.handles 0 third.1) 1 third.2;
}

lived : Reach assigned
unfolding third
lived =
    next
      (next (next here (builds 0 0 first.0 first.1 refl refl refl))
        (builds_grouped 1 0 group0 second.0 second.1 refl refl refl))
      (assigns 0 1 third.0 third.1 third.2 (λ e. omega arith) refl refl)

idle : (k : ℕ) → 2 ≤ k → holding (assigned.handles k) ≡ none
unfolding third holding
idle k le = ground arith

Reach-IsOwned_example : IsOwned 0 assigned.registries (λ k. holding (assigned.handles k))
Reach-IsOwned_example = Reach-IsOwned assigned (omega arith) lived

all_given_back_example :
    (t : Crowd) × (destroy_all 2 assigned ≡ some t) × ((i : ℕ) → IsUnused 0 (t.registries i))
all_given_back_example = all_given_back 2 assigned (omega arith) lived idle

-- Channel `c` has terminal `c + 1`.
abbrev own_terminals : OutputResourceStore
own_terminals = record { terminals = λ c. some (c + 1); files = λ c. none; sockets = λ c. none }

both_lived : Reach two_handles
unfolding second
both_lived =
    next (next here (builds 0 0 first.0 first.1 refl refl refl))
      (builds_grouped 1 0 group0 second.0 second.1 refl refl refl)

-- Handle 1 publishes; handle 0 has an exclusive channel.
publishes_apart_example :
    (after : Streams) × (publish_view terminal
        (two_handles.registries 0)
        own_terminals
        1
        (codes "hi")
        (λ i. [])
      ≡ some after)
    × (after 4 ≡ [])
    × (after 3 ≡ codes "hi")
unfolding second resolve holding
publishes_apart_example =
    publishes_apart two_handles own_terminals 0 1 0 0 1 3 2 4 3 (codes "hi") (λ i. []) (omega arith)
      both_lived (λ a b j e f. ground arith) (λ e. omega arith) refl refl refl refl refl refl refl
