-- ===== src/Publisher/Handle/Crowd.antt =====
-- Any number of RegistrationHandles (registration_handle.hpp) on any number of registries, through
-- sequences of their operations: which handle owns which token.
pub mod Changes
pub mod Takers
pub mod Calls
pub mod Kept
pub mod Ended
pub mod Published
mod Tests
use my_server.Common.{
  ◌+◌, Option, ℕ, ◌≡◌, ◌≢◌, none, some, true, false, ◌==◌, ◌&&◌, if◌then◌else◌, update,
}
use my_server.Common.Outcome.{done, threw}
use my_server.Publisher.Types.{ChannelGroup, PublishToken}
use my_server.Publisher.Registry.{Error, capacity_exceeded, new, resolve}
use my_server.Publisher.Registry.Leaks.{IsKept}
use my_server.Publisher.Handle.{
  RegistrationHandle, Registries, detached, valid, new_exclusive, new_grouped, destroy, move_assign,
  reassign, reassign_group,
}

-- The handles are numbered; a number without a handle has a detached one. `starved` operations have
-- found no token left in their registry.
pub record Crowd : Type 0 where
  pub starved : ℕ
  pub registries : Registries
  pub handles : ℕ → RegistrationHandle

-- An operation that throws this has found no token left.
abbrev pub starves : Error → ℕ
starves error = elim error [ capacity_exceeded ↦ 1 | _ ↦ 0 ]

abbrev pub starves_if : Option Error → ℕ
starves_if none = 0
starves_if (some error) = starves error

-- The operations. What a constructor that throws builds is no handle.
pub data Step (s t : Crowd) : Type 0 where
  builds :
      (k i : ℕ) (rs : Registries) (h : RegistrationHandle)
      → s.handles k ≡ detached
      → new_exclusive i s.registries ≡ done rs h
      → t ≡ record s { registries = rs; handles = update s.handles k h }
      → Step s t
  builds_grouped :
      (k i : ℕ) (group : ChannelGroup) (rs : Registries) (h : RegistrationHandle)
      → s.handles k ≡ detached
      → new_grouped i group s.registries ≡ done rs h
      → t ≡ record s { registries = rs; handles = update s.handles k h }
      → Step s t
  fails :
      (i : ℕ) (rs : Registries) (error : Error)
      → new_exclusive i s.registries ≡ threw rs error
      → t ≡ record s { registries = rs; starved = s.starved + starves error }
      → Step s t
  fails_grouped :
      (i : ℕ) (group : ChannelGroup) (rs : Registries) (error : Error)
      → new_grouped i group s.registries ≡ threw rs error
      → t ≡ record s { registries = rs; starved = s.starved + starves error }
      → Step s t
  -- The move constructor, from handle `l`.
  moves :
      (k l : ℕ)
      → k ≢ l
      → s.handles k ≡ detached
      → t ≡ record s { handles = update (update s.handles k (s.handles l)) l detached }
      → Step s t
  assigns :
      (k l : ℕ) (rs : Registries) (h other : RegistrationHandle)
      → k ≢ l
      → move_assign (s.handles k) (s.handles l) s.registries ≡ some (rs, h, other)
      → t ≡ record s { registries = rs; handles = update (update s.handles k h) l other }
      → Step s t
  reassigns :
      (k : ℕ) (rs : Registries) (h : RegistrationHandle) (thrown : Option Error)
      → reassign (s.handles k) s.registries ≡ some (rs, h, thrown)
      → t ≡ record {
        registries = rs;
        handles = update s.handles k h;
        starved = s.starved + starves_if thrown;
      }
      → Step s t
  reassigns_group :
      (k : ℕ) (group : ChannelGroup) (rs : Registries) (h : RegistrationHandle)
      (thrown : Option Error)
      → reassign_group group (s.handles k) s.registries ≡ some (rs, h, thrown)
      → t ≡ record {
        registries = rs;
        handles = update s.handles k h;
        starved = s.starved + starves_if thrown;
      }
      → Step s t
  ends :
      (k : ℕ) (rs : Registries)
      → destroy (s.handles k) s.registries ≡ some rs
      → t ≡ record s { registries = rs; handles = update s.handles k detached }
      → Step s t

-- New registries, and no handle.
abbrev pub nobody : Crowd
nobody = record { starved = 0; registries = λ i. new; handles = λ k. detached }

pub data Reach : Crowd → Type 0 where
  here : Reach nobody
  next : {s t : Crowd} → Reach s → Step s t → Reach t

-- The registry and the token of a valid handle.
unfoldable pub holding : RegistrationHandle → Option (ℕ × PublishToken)
unfolding valid
holding h = elim h.registry [ none ↦ none | some i ↦ if valid h then some (i, h.token) else none ]

-- The registries are valid but for at most `n` users without a token in each, every token that resolves is that of one handle, and the token of a
-- handle resolves. `held` has what each handle holds.
pub record IsOwned (n : ℕ) (rs : Registries) (held : ℕ → Option (ℕ × PublishToken)) : Type 0 where
  pub registries : (i : ℕ) → IsKept n (rs i)
  pub owns : (k i : ℕ) (t : PublishToken) → held k ≡ some (i, t) → resolve (rs i) t ≢ none
  pub unique : (k l i : ℕ) (t : PublishToken) → held k ≡ some (i, t) → held l ≡ some (i, t) → k ≡ l
  pub owned :
      (i : ℕ) (t : PublishToken) → resolve (rs i) t ≢ none → (k : ℕ) × (held k ≡ some (i, t))
