-- ===== src/Publisher/Handle/Lifetime.antt =====
-- RegistrationHandle (registration_handle.hpp): it gives its token back once, whatever it goes through.
use my_server.Publisher.Registry.Isolation.{release-acquire}
use my_server.Publisher.Registry.History.{acquire-done}
use my_server.Publisher.Registry.Acquire.{acquire_lem, Acquired}
use my_server.Common.{
  ◌∙◌, inr, ap, inl, refl, ◌<◌, ℕ_discrete, none, ◌<◌, ◌⊎◌, ℕ, ◌≡◌, ◌≢◌, sym, some, arith, update,
  update_self,
}
use my_server.Common.Outcome.{Outcome-cases, done}
use my_server.Publisher.Types.{max_groups, PublishToken}
use my_server.Publisher.Registry.{TokenRegistry, release, resolve}
use my_server.Publisher.Registry.Invariant.{IsValid, nothing}
use my_server.Publisher.Registry.Release.{Released}
use my_server.Publisher.Handle.{
  acquire, detached, destroy, reassign, move, move_assign, new_exclusive, RegistrationHandle,
  Registries, valid, release_handle,
}
use my_server.Publisher.Handle.Ownership.{
  Owns, Owns-valid, HandleReleased, release_handle-done, release_handle_owned,
}

destroy-done :
    (rs : Registries) (h : RegistrationHandle) (rs' : Registries) (h' : RegistrationHandle)
    → release_handle h rs ≡ some (rs', h')
    → destroy h rs ≡ some rs'
unfolding destroy
destroy-done rs h rs' h' e = ground arith

-- A constructor that returns has taken a token of the registry.
new_exclusive-done :
    (rs rs' : Registries) (i : ℕ) (h : RegistrationHandle)
    → new_exclusive i rs ≡ done rs' h
    → (q : TokenRegistry) × (acquire (rs i) ≡ done q h.token)
      × (rs' ≡ update rs i q)
      × (h.registry ≡ some i)
unfolding new_exclusive
new_exclusive-done rs rs' i h e = elim (Outcome-cases (acquire (rs i))) [
  | inl (q, t, f) ↦ (q, ground arith, ground arith, ground arith)
  | inr (inl (q, x, f)) ↦ absurd (ground arith)
  | inr (inr f) ↦ absurd (ground arith)
]

-- A handle that is built on a valid registry owns a token of it; its destructor, run next, leaves
-- the registry valid, with every token and group and the number of free channels as before.
handle_lifetime :
    (rs rs' : Registries) (i : ℕ) (h : RegistrationHandle)
    → IsValid (rs i)
    → new_exclusive i rs ≡ done rs' h
    → (c : ℕ) × (end : Registries) × Owns rs' h i c
      × (destroy h rs' ≡ some end)
      × IsValid (end i)
      × ((s : PublishToken) → resolve (end i) s ≡ resolve (rs i) s)
      × ((g : ℕ) → g < max_groups → (end i).group_to_channel g ≡ (rs i).group_to_channel g)
      × ((end i).free_channel_count ≡ (rs i).free_channel_count)
handle_lifetime rs rs' i h ok e = (
  n.0,
  update rs' i a.0,
  owns,
  end_at,
  rw (update_self rs' i a.0) a.2,
  rw (update_self rs' i a.0) a.3,
  rw (update_self rs' i a.0) a.5,
  rw (update_self rs' i a.0) a.6,
)
  where
    d :
        (q : TokenRegistry) × (acquire (rs i) ≡ done q h.token)
        × (rs' ≡ update rs i q)
        × (h.registry ≡ some i)
    d = new_exclusive-done rs rs' i h e

    here : rs' i ≡ d.0
    here = ap (λ (k : Registries). k i) d.2 ∙ update_self rs i d.0

    n : (c : ℕ) × Acquired (rs i) d.0 h.token c
    n = acquire-done (rs i) d.0 h.token ok d.1

    owns : Owns rs' h i n.0
    owns = record { attached = d.3; resolves = rw here (ground (arith, n.1.resolves h.token)) }

    a :
        (p : TokenRegistry) × (release h.token d.0 ≡ done p tt)
        × IsValid p
        × ((s : PublishToken) → resolve p s ≡ resolve (rs i) s)
        × ((c : ℕ) → p.channel_ref_count c ≡ (rs i).channel_ref_count c)
        × ((g : ℕ) → g < max_groups → p.group_to_channel g ≡ (rs i).group_to_channel g)
        × (p.free_channel_count ≡ (rs i).free_channel_count)
    a = release-acquire (rs i) d.0 h.token ok d.1

    end_at : destroy h rs' ≡ some (update rs' i a.0)
    end_at =
        destroy-done rs' h (update rs' i a.0) _
          (release_handle-done rs' h i a.0 d.3 (Owns-valid rs' h i n.0 owns) (rw here a.1))

-- After a move of a handle that owns a token of a valid registry, the destructor of the source
-- changes nothing, and that of the target releases the token.
move_releases_once :
    (rs : Registries) (h : RegistrationHandle) (i c : ℕ)
    → IsValid (rs i)
    → Owns rs h i c
    → let (target, source) = move h in
      (rs' : Registries) × (destroy source rs ≡ some rs)
      × (destroy target rs ≡ some rs')
      × Released (rs i) h.token c (rs' i)
unfolding move destroy release_handle valid
move_releases_once rs h i c ok o =
    let a = release_handle_owned rs h i c ok o in
    (a.0, refl, destroy-done rs h a.0 _ a.1.outcome, a.1.registry)

-- Move assignment between handles that own different tokens, of a valid registry on the left side:
-- the left one's token resolves no more, the registry stays valid, the left one owns the other's
-- token, and the other is detached.
move_assign_lem :
    (rs : Registries) (h other : RegistrationHandle) (i c j d : ℕ)
    → IsValid (rs i)
    → Owns rs h i c
    → Owns rs other j d
    → (i ≡ j → h.token ≢ other.token)
    → (rs' : Registries) × (move_assign h other rs ≡ some (rs', other, detached))
      × Owns rs' other j d
      × (resolve (rs' i) h.token ≡ none)
      × IsValid (rs' i)
unfolding move_assign
move_assign_lem rs h other i c j d ok o p apart = (
  a.0,
  ground (arith, a.1.outcome),
  record { attached = p.attached; resolves = kept },
  ground (arith, a.1.registry.resolves h.token),
  a.1.registry.valid,
)
  where
    a : (rs' : Registries) × HandleReleased nothing rs h i c rs'
    a = release_handle_owned rs h i c ok o

    kept : resolve (a.0 j) other.token ≡ some d
    kept = elim (ℕ_discrete i j) [
      | yes e ↦ ground (arith, e, apart e, a.1.registry.resolves other.token, p.resolves)
      | no ne ↦ rw (a.1.others j (λ e. ne (sym e))) p.resolves
    ]

-- `reassign` on a handle that owns a token of a valid registry, whose channel nobody else uses or
-- while a channel is free, throws nothing: the handle owns a token, and the registry is valid.
reassign_lem :
    (rs : Registries) (h : RegistrationHandle) (i c : ℕ)
    → IsValid (rs i)
    → Owns rs h i c
    → ((rs i).channel_ref_count c ≡ 1) ⊎ (0 < (rs i).free_channel_count)
    → (rs' : Registries) × (h' : RegistrationHandle) × (d : ℕ) × (reassign h rs
        ≡ some (rs', h', none))
      × Owns rs' h' i d
      × IsValid (rs' i)
unfolding reassign
reassign_lem rs h i c ok o room = (
  update a.0 i b.0,
  record h { token = b.1 },
  b.2,
  ground (arith, o.attached, a.1.outcome, b.3),
  record {
    attached = o.attached;
    resolves = rw (update_self a.0 i b.0) (ground (arith, b.4.resolves b.1));
  },
  rw (update_self a.0 i b.0) b.4.valid,
)
  where
    a : (rs' : Registries) × HandleReleased nothing rs h i c rs'
    a = release_handle_owned rs h i c ok o

    space : 0 < (a.0 i).free_channel_count
    space = ground (arith, a.1.registry.free, room)

    b :
        (q : TokenRegistry) × (t : PublishToken) × (d : ℕ) × (acquire (a.0 i) ≡ done q t)
        × Acquired (a.0 i) q t d
    b = acquire_lem (a.0 i) a.1.registry.valid space (inl a.1.registry.token_left)
