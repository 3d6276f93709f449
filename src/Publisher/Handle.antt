-- ===== src/Publisher/Handle.antt =====
-- modules/publisher/include/publisher/runtime/registration_handle.hpp: the class
-- RegistrationHandle. A handle points at a registry by its number in a store, or at none; `&&`
-- moves and the destructor are functions from handles to handles.
pub mod Ownership
mod Lifetime
pub mod Crowd
mod Tests
use my_server.Common.{
  ℕ, Bool, true, false, not, ◌&&◌, Option, none, some, ◌==◌, if◌then◌else◌, update,
}
use my_server.Common.Outcome.{Outcome, done, threw, fault}
use my_server.Publisher.Types.{ChannelGroup, PublishToken, invalid_token}
use my_server.Publisher.Registry.{TokenRegistry, Error, M, acquire, acquire_group, release}

-- `registry_` and `token_`.
pub record RegistrationHandle : Type 0 where
  pub registry : Option ℕ
  pub token : PublishToken

abbrev pub Registries : Type 0
Registries = ℕ → TokenRegistry

-- RegistrationHandle().
abbrev pub detached : RegistrationHandle
detached = record { registry = none; token = invalid_token }

unfoldable pub valid : RegistrationHandle → Bool
valid h = elim h.registry [ none ↦ false | some i ↦ not (h.token == invalid_token) ]

-- Runs a method of registry `i` of the store.
abbrev pub at_registry : {A : Type 0} → ℕ → M A → Registries → Outcome Registries Error A
at_registry i m rs = elim (m (rs i)) [
  | done r a ↦ done (update rs i r) a
  | threw r e ↦ threw (update rs i r) e
  | fault ↦ fault
]

-- A constructor takes a token, or throws.
pub take_token : ℕ → M PublishToken → Registries → Outcome Registries Error RegistrationHandle
take_token i m rs = elim (at_registry i m rs) [
  | done rs' t ↦ done rs' (record { registry = some i; token = t })
  | threw rs' e ↦ threw rs' e
  | fault ↦ fault
]

unfoldable pub new_exclusive : ℕ → Registries → Outcome Registries Error RegistrationHandle
unfolding take_token
new_exclusive i = take_token i acquire

unfoldable pub new_grouped :
    ℕ → ChannelGroup → Registries → Outcome Registries Error RegistrationHandle
unfolding take_token
new_grouped i group = take_token i (acquire_group group)

-- The private `release`: an exception of the registry is caught, and what the registry did stays.
-- `none` is a fault of the registry.
unfoldable pub release_handle :
    RegistrationHandle → Registries → Option (Registries × RegistrationHandle)
release_handle h rs =
    let h' = record h { token = invalid_token } in
    elim h.registry [
      | none ↦ some (rs, h')
      | some i ↦
          if valid h
          then (elim (at_registry i (release h.token) rs) [
            | done rs' _ ↦ some (rs', h')
            | threw rs' _ ↦ some (rs', h')
            | fault ↦ none
          ])
          else some (rs, h')
    ]

-- The destructor, to the registries that it leaves.
unfoldable pub destroy : RegistrationHandle → Registries → Option Registries
unfolding release_handle
destroy h rs = elim (release_handle h rs) [ none ↦ none | some (rs', _) ↦ some rs' ]

-- The move constructor: the new handle, and the one moved from.
unfoldable pub move : RegistrationHandle → RegistrationHandle × RegistrationHandle
move other = (other, detached)

-- The move assignment of another handle, `this != &other`: this handle and the one moved from.
unfoldable pub move_assign :
    RegistrationHandle
    → RegistrationHandle
    → Registries
    → Option (Registries × RegistrationHandle × RegistrationHandle)
unfolding release_handle
move_assign h other rs = elim (release_handle h rs) [
  | none ↦ none
  | some (rs', _) ↦ some (rs', other, detached)
]

-- The move assignment of a handle to itself changes nothing.
unfoldable pub move_assign_self : RegistrationHandle → RegistrationHandle
move_assign_self h = h

-- What `reassign` does after the release: the handle, and the exception if one was thrown. A
-- failed acquire leaves the handle without a token.
pub retake :
    M PublishToken
    → ℕ
    → Registries × RegistrationHandle
    → Option (Registries × RegistrationHandle × Option Error)
retake m i (rs, h) = elim (at_registry i m rs) [
  | done rs' t ↦ some (rs', record h { token = t }, none)
  | threw rs' e ↦ some (rs', h, some e)
  | fault ↦ none
]

pub reassign_by :
    M PublishToken
    → RegistrationHandle
    → Registries
    → Option (Registries × RegistrationHandle × Option Error)
unfolding release_handle retake
reassign_by m h rs = elim h.registry [
  | none ↦ none
  | some i ↦ elim (release_handle h rs) [ none ↦ none | some s ↦ retake m i s ]
]

-- `reassign()` and `reassign(group)`: `none` where the handle has no registry (a failed assert).
unfoldable pub reassign :
    RegistrationHandle → Registries → Option (Registries × RegistrationHandle × Option Error)
unfolding reassign_by
reassign = reassign_by acquire

unfoldable pub reassign_group :
    ChannelGroup
    → RegistrationHandle
    → Registries
    → Option (Registries × RegistrationHandle × Option Error)
unfolding reassign_by
reassign_group group = reassign_by (acquire_group group)
