-- ===== src/Publisher/Handle/Tests.antt =====
-- RegistrationHandle at concrete inputs: two handles on registry 0.
use my_server.Common.{◌≡◌, refl}
use my_server.Publisher.Registry.{resolve, TokenRegistry, new, acquire}
use my_server.Publisher.Registry.Invariant.{IsValid}
use my_server.Publisher.Registry.History.{fresh, acquired, History-IsValid}
use my_server.Publisher.Handle.{RegistrationHandle, Registries, detached, new_exclusive}
use my_server.Publisher.Handle.Ownership.{Owns}
use my_server.Common.Outcome.{fault, threw, done}
use my_server.Publisher.Registry

abbrev fresh_registries : Registries
fresh_registries i = new

-- The state after the first handle's constructor, and the handle.
unfoldable after_first : Registries × RegistrationHandle
unfolding new_exclusive new acquire Registry.pop_free_channel Registry.set_channel
    Registry.allocate_token
after_first = elim (new_exclusive 0 fresh_registries) [
  | done rs h ↦ (rs, h)
  | threw rs e ↦ (rs, detached)
  | fault ↦ (fresh_registries, detached)
]

first_runs : new_exclusive 0 fresh_registries ≡ done after_first.0 after_first.1
unfolding after_first
first_runs = refl

-- A second handle on the same registry.
unfoldable after_second : Registries × RegistrationHandle
unfolding after_first
after_second = elim (new_exclusive 0 after_first.0) [
  | done rs h ↦ (rs, h)
  | threw rs e ↦ (rs, detached)
  | fault ↦ (fresh_registries, detached)
]

second_runs : new_exclusive 0 after_first.0 ≡ done after_second.0 after_second.1
unfolding after_second
second_runs = refl

registry-IsValid : IsValid (after_first.0 0)
unfolding after_first
registry-IsValid = History-IsValid (acquired 0 fresh refl)

second_registry-IsValid : IsValid (after_second.0 0)
unfolding after_second
second_registry-IsValid = History-IsValid (acquired 1 (acquired 0 fresh refl) refl)

first-Owns : Owns after_first.0 after_first.1 0 3
unfolding after_first resolve
first-Owns = record { attached = refl; resolves = refl }

first_still-Owns : Owns after_second.0 after_first.1 0 3
unfolding after_second resolve
first_still-Owns = record { attached = refl; resolves = refl }

second-Owns : Owns after_second.0 after_second.1 0 2
unfolding after_second resolve
second-Owns = record { attached = refl; resolves = refl }
