-- ===== src/Publisher/Handle/Crowd/Ended.antt =====
-- The end of every RegistrationHandle (registration_handle.hpp): what is left when all have gone.
use my_server.Common.{
  subst, ◌^◌, ◌==◌, ◌+◌, ◌⊎◌, ℕ, zero, suc, ◌<◌, ◌≤◌, ◌≡◌, inl, inr, refl, sym, ◌∙◌, Option, none,
  some, false, arith, update, ℕ_discrete, Option-cases, count-congr, count-none,
}
use my_server.Publisher.Types.{PublishToken, max_groups}
use my_server.Publisher.Registry.{resolve, max_channels, max_bindings, no_channel}
use my_server.Publisher.Registry.Invariant.{is_free_channel, holds}
use my_server.Publisher.Registry.Leaks.{IsKept, sum, free_or_used}
use my_server.Publisher.Handle.{
  TokenRegistry, RegistrationHandle, Registries, detached, destroy, release_handle,
}
use my_server.Publisher.Handle.Ownership.{release_handle_owned, release_handle_idle}
use my_server.Publisher.Handle.Crowd.{Crowd, ends, Reach, next, IsOwned, holding}
use my_server.Publisher.Handle.Crowd.Calls.{holding-cases, holding-update, holding_invalid}
use my_server.Publisher.Handle.Crowd.Kept.{Reach-IsOwned}

-- No token resolves; the users of the channels are `extra`, at most `n` in all, and have no token; all
-- but at most `n` channels are free, and a group has none but one with such a user.
pub record IsUnused (n : ℕ) (r : TokenRegistry) : Type 0 where
  pub extra : ℕ → ℕ
  pub few : sum max_channels extra ≤ n
  pub unbound : (t : PublishToken) → resolve r t ≡ none
  pub users : (c : ℕ) → c < max_channels → r.channel_ref_count c ≡ extra c
  pub free_left : max_channels ≤ r.free_channel_count + n
  pub groups :
      (g : ℕ)
      → g < max_groups
      → (r.group_to_channel g ≡ no_channel) ⊎ (0 < extra (r.group_to_channel g))

-- A token that does not resolve has no channel.
unheld :
    (r : TokenRegistry) (c t : ℕ)
    → resolve r t ≡ none
    → t < r.next_token
    → r.next_token ≤ max_bindings
    → holds r.token_used r.token_to_channel c t ≡ false
unfolding resolve
unheld r c t e lt le = ground arith

-- When no handle holds a token any more, every registry is unused.
nothing_leaks :
    (n : ℕ) (s : Crowd) (i : ℕ)
    → IsOwned n s.registries (λ k. holding (s.handles k))
    → ((k : ℕ) → holding (s.handles k) ≡ none)
    → IsUnused n (s.registries i)
nothing_leaks n s i o idle = record {
  extra = kept.extra;
  few = kept.few;
  unbound = unbound;
  users = users;
  free_left = omega (
    arith,
    kept.consistent.channels.stack.full,
    free_or_used max_channels kept.extra,
    kept.few,
    count-congr max_channels (is_free_channel (s.registries i).channel_ref_count)
        (λ c. kept.extra c == 0) (λ c lt. rw (users c lt) refl),
  );
  groups = groups;
}
  where
    kept : IsKept n (s.registries i)
    kept = o.registries i

    unbound : (t : PublishToken) → resolve (s.registries i) t ≡ none
    unbound t = elim (Option-cases (resolve (s.registries i) t)) [
      | inl z ↦ z
      | inr (c, e) ↦
          let owner = o.owned i t (λ z. cc (sym e ∙ z)) in absurd (cc (sym owner.1 ∙ idle owner.0))
    ]

    users : (c : ℕ) → c < max_channels → (s.registries i).channel_ref_count c ≡ kept.extra c
    users c lt = omega (
      arith,
      kept.consistent.counted c lt,
      count-congr (s.registries i).next_token
          (holds (s.registries i).token_used (s.registries i).token_to_channel c) (λ t. false)
          (λ t tl. unheld (s.registries i) c t (unbound t) tl kept.consistent.tokens.capacity),
      count-none (s.registries i).next_token,
    )

    groups :
        (g : ℕ)
        → g < max_groups
        → ((s.registries i).group_to_channel g ≡ no_channel)
          ⊎ (0 < kept.extra ((s.registries i).group_to_channel g))
    groups g lt = elim (ℕ_discrete ((s.registries i).group_to_channel g) no_channel) [
      | yes closed ↦ inl closed
      | no opened ↦
          let live = kept.consistent.channels.groups.live g lt opened in
          inr (omega (arith, live.1, users ((s.registries i).group_to_channel g) live.0))
    ]

release_handle_returns :
    (n : ℕ) (rs : Registries) (hs : ℕ → RegistrationHandle) (k : ℕ)
    → IsOwned n rs (λ l. holding (hs l))
    → (rs' : Registries) × (h : RegistrationHandle) × (release_handle (hs k) rs ≡ some (rs', h))
release_handle_returns n rs hs k o = elim (holding-cases (hs k)) [
  | inl (idle, nothing) ↦ (rs, _, release_handle_idle rs (hs k) idle)
  | inr (i, at, v, held) ↦ elim (Option-cases (resolve (rs i) (hs k).token)) [
    | inl z ↦ absurd (o.owns k i (hs k).token held z)
    | inr (c, r) ↦
        let a =
          release_handle_owned rs (hs k) i c (o.registries i).consistent
            (record { attached = at; resolves = r }) in
        (a.0, _, a.1.outcome)
  ]
]

-- Whatever the handles have gone through, the destructor of each returns, and leaves a state that
-- they can go on from.
pub destructor_returns :
    (s : Crowd) (k : ℕ)
    → s.starved + max_bindings + 1 < 2 ^ 64
    → Reach s
    → (rs : Registries) × (destroy (s.handles k) s.registries ≡ some rs)
      × Reach (record s { registries = rs; handles = update s.handles k detached })
unfolding destroy
destructor_returns s k small r =
    let a = release_handle_returns s.starved s.registries s.handles k (Reach-IsOwned s small r) in
    let e : destroy (s.handles k) s.registries ≡ some a.0 = ground (arith, a.2) in
    (a.0, e, next r (ends k a.0 e refl))

-- The destructors of the handles below `n`, the last handle first: `none` where one faults.
unfoldable pub destroy_all : ℕ → Crowd → Option Crowd
destroy_all zero s = some s
destroy_all (suc n) s = elim (destroy (s.handles n) s.registries) [
  | none ↦ none
  | some rs ↦ destroy_all n (record s { registries = rs; handles = update s.handles n detached })
]

destroy_all_returns :
    (n : ℕ) (s : Crowd)
    → s.starved + max_bindings + 1 < 2 ^ 64
    → Reach s
    → ((k : ℕ) → n ≤ k → holding (s.handles k) ≡ none)
    → (t : Crowd) × (destroy_all n s ≡ some t)
      × Reach t
      × (t.starved ≡ s.starved)
      × ((k : ℕ) → holding (t.handles k) ≡ none)
unfolding destroy_all
destroy_all_returns zero s small r idle = (s, refl, r, refl, λ k. idle k (omega arith))
destroy_all_returns (suc n) s small r idle =
    let a = destructor_returns s n small r in
    let rest =
      destroy_all_returns n (record s { registries = a.0; handles = update s.handles n detached })
        small a.2
        (λ k le.
          ground (
            arith,
            holding-update s.handles n detached k,
            holding_invalid detached refl,
            idle k,
          )) in
    (rest.0, rw (a.1, destroy_all) rest.1, rest.2, rest.3, rest.4)

-- After any operations of handles, of which those from number `n` on hold nothing, and while fewer than
-- 2 ^ 64 - 257 operations have found no token left: the destructors of the handles below `n` return, one
-- after the other, and leave no token that resolves in any registry. A channel has no user but those
-- that an operation which found no token has left, at most as many in a registry as there were such
-- operations; at most so many channels are not free, and no group has another channel than one of those.
-- So if no operation has found a registry without a token, all channels are free, and no group has one.
pub all_given_back :
    (n : ℕ) (s : Crowd)
    → s.starved + max_bindings + 1 < 2 ^ 64
    → Reach s
    → ((k : ℕ) → n ≤ k → holding (s.handles k) ≡ none)
    → (t : Crowd) × (destroy_all n s ≡ some t) × ((i : ℕ) → IsUnused s.starved (t.registries i))
all_given_back n s small r idle =
    let a = destroy_all_returns n s small r idle in
    let still : a.0.starved + max_bindings + 1 < 2 ^ 64 = omega (arith, a.3, small) in
    let o = Reach-IsOwned a.0 still a.2 in
    (
      a.0,
      a.1,
      λ i.
          nothing_leaks s.starved a.0 i
            (subst (λ m. IsOwned m a.0.registries (λ k. holding (a.0.handles k))) a.3 o) a.4,
    )
