-- ===== src/Publisher/Registry/Isolation.antt =====
-- What the holders of TokenRegistry's tokens can rely on: which tokens share a channel.
use my_server.Common.{
  ◌-◌, update_self, ℕ, ◌<◌, ◌≡◌, ◌≢◌, ◌↔◌, sym, ◌∙◌, ap, some, none, arith, ◌==◌, ℕ_discrete,
  if◌then◌else◌, count-pos, count-two, true,
}
use my_server.Common.Outcome.{done}
use my_server.Publisher.Types.{
  ChannelGroup, ChannelMode, exclusive, PublishToken, max_groups, to_index,
}
use my_server.Publisher.Registry.{
  TokenRegistry, max_channels, acquire, acquire_group, release, resolve,
}
use my_server.Publisher.Registry.Invariant.{IsConsistent, nothing-Bounded, holders, IsValid, holds}
use my_server.Publisher.Registry.Acquire.{Acquired}
use my_server.Publisher.Registry.Group.{GroupAcquired}
use my_server.Publisher.Registry.Release.{Released, release_lem}
use my_server.Publisher.Registry.History.{acquire-done, acquire_group-done}

-- A token that resolves is handed out on the channel.
pub resolve-holds :
    (r : TokenRegistry) (t : PublishToken) (c : ℕ)
    → resolve r t ≡ some c
    → (t < r.next_token)
      × (holds r.token_used r.token_to_channel c t ≡ true)
      × (r.token_used t ≡ true)
      × (r.token_to_channel t ≡ c)
unfolding resolve
resolve-holds r t c e = ground arith

-- A token resolves to an index below the number of channels, and that channel
-- counts at least one user.
pub resolve_bounds :
    {extra : ℕ → ℕ} (r : TokenRegistry) (t : PublishToken) (c : ℕ)
    → IsConsistent extra r
    → resolve r t ≡ some c
    → (c < max_channels) × (0 < r.channel_ref_count c)
resolve_bounds r t c ok e = (below, omega (arith, ok.counted c below, positive))
  where
    h :
        (t < r.next_token)
        × (holds r.token_used r.token_to_channel c t ≡ true)
        × (r.token_used t ≡ true)
        × (r.token_to_channel t ≡ c)
    h = resolve-holds r t c e

    below : c < max_channels
    below = rw h.3 at (ok.tokens.bound t h.0 h.2)

    positive : 0 < holders r c
    positive = count-pos r.next_token t (holds r.token_used r.token_to_channel c) h.0 h.1

exclusive_unique :
    {extra : ℕ → ℕ} (r : TokenRegistry) (s t : PublishToken) (c : ℕ)
    → IsConsistent extra r
    → r.channel_mode c ≡ exclusive
    → resolve r s ≡ some c
    → resolve r t ≡ some c
    → s ≡ t
exclusive_unique r s t c ok alone es et = elim (ℕ_discrete s t) [
  | yes e ↦ e
  | no ne ↦
      let a = resolve-holds r s c es in
      let b = resolve-holds r t c et in
      let bounds = resolve_bounds r s c ok es in
      absurd (
        omega (
          arith,
          count-two r.next_token s t (holds r.token_used r.token_to_channel c) a.0 b.0 ne a.1 b.1,
          ok.counted c bounds.0,
          ok.channels.solo c bounds.0 bounds.1 alone,
        ))
]

-- Where a token resolves to a channel in exclusive mode, no other token does.
pub exclusive_alone :
    {extra : ℕ → ℕ} (r : TokenRegistry) (s t : PublishToken) (c : ℕ)
    → IsConsistent extra r
    → r.channel_mode c ≡ exclusive
    → resolve r s ≡ some c
    → s ≢ t
    → resolve r t ≢ some c
exclusive_alone r s t c ok alone es ne et = ne (exclusive_unique r s t c ok alone es et)

-- From a valid registry, the token that `acquire` returns did not resolve before and resolves after;
-- every other token resolves as before, and not to its channel.
pub acquire_isolated :
    (r q : TokenRegistry) (t : PublishToken)
    → IsValid r
    → acquire r ≡ done q t
    → (c : ℕ) × (resolve r t ≡ none)
      × (resolve q t ≡ some c)
      × ((s : PublishToken) → s ≢ t → (resolve q s ≡ resolve r s) × (resolve q s ≢ some c))
acquire_isolated r q t ok e = (
  c,
  a.unused,
  ground (arith, a.resolves t),
  λ s ne. (
    ground (arith, a.resolves s),
    λ h. ne (exclusive_unique q s t c a.valid alone h (ground (arith, a.resolves t))),
  ),
)
  where
    c : ℕ
    c = (acquire-done r q t ok e).0

    a : Acquired r q t c
    a = (acquire-done r q t ok e).1

    alone : q.channel_mode c ≡ exclusive
    alone = ap (λ (k : ℕ → ChannelMode). k c) a.modes ∙ update_self r.channel_mode c exclusive

-- From a valid registry, two tokens that `acquire(group)` returns in a row resolve to one channel
-- exactly when their groups have one index.
pub groups_separate :
    (r q p : TokenRegistry) (group other : ChannelGroup) (t s : PublishToken)
    → IsValid r
    → to_index group < max_groups
    → to_index other < max_groups
    → acquire_group group r ≡ done q t
    → acquire_group other q ≡ done p s
    → (resolve p t ≡ resolve p s) ↔ (to_index group ≡ to_index other)
groups_separate r q p group other t s ok gl hl e f = (
  λ same.
      b.valid.channels.groups.distinct g h gl hl (ground (arith, p_at g, q_at_g, a.below, b.below))
        (ground (arith, p_at g, p_at h, q_at_g, at_s, at_t, same)),
  λ same. at_t ∙ sym (at_s ∙ ap some (joins same)),
)
  where
    g : ℕ
    g = to_index group

    h : ℕ
    h = to_index other

    c : ℕ
    c = (acquire_group-done r q group t nothing-Bounded ok e).0

    a : GroupAcquired r g q t c
    a = (acquire_group-done r q group t nothing-Bounded ok e).1

    d : ℕ
    d = (acquire_group-done q p other s nothing-Bounded a.valid f).0

    b : GroupAcquired q h p s d
    b = (acquire_group-done q p other s nothing-Bounded a.valid f).1

    at_s : resolve p s ≡ some d
    at_s = ground (arith, b.resolves s)

    at_t : resolve p t ≡ some c
    at_t = ground (arith, b.resolves t, a.resolves t, b.unused)

    q_at_g : q.group_to_channel g ≡ c
    q_at_g = ap (λ (k : ℕ → ℕ). k g) a.groups ∙ update_self r.group_to_channel g c

    p_at : (k : ℕ) → p.group_to_channel k ≡ (if h == k then d else q.group_to_channel k)
    p_at k = ap (λ (l : ℕ → ℕ). l k) b.groups

    joins : g ≡ h → d ≡ c
    joins same = ground (arith, b.joins, q_at_g, a.below)

-- From a valid registry, the token that `acquire` returns can be released at once, which leaves a
-- valid registry with every token, reference count and group, and the number of free channels, as
-- they were before.
pub release-acquire :
    (r q : TokenRegistry) (t : PublishToken)
    → IsValid r
    → acquire r ≡ done q t
    → (p : TokenRegistry) × (release t q ≡ done p tt)
      × IsValid p
      × ((s : PublishToken) → resolve p s ≡ resolve r s)
      × ((c : ℕ) → p.channel_ref_count c ≡ r.channel_ref_count c)
      × ((g : ℕ) → g < max_groups → p.group_to_channel g ≡ r.group_to_channel g)
      × (p.free_channel_count ≡ r.free_channel_count)
release-acquire r q t ok e = (
  b.0,
  b.1,
  b.2.valid,
  λ s. ground (arith, b.2.resolves s, a.resolves s, a.unused),
  λ d. ground (arith, p_refs d, q_refs d, q_refs c, a.was_free),
  λ g gl. ground (
    arith,
    b.2.groups g gl,
    q_refs c,
    a.below,
    q_groups g,
    a.was_free,
    ok.channels.groups.live g gl,
  ),
  ground (arith, b.2.free, a.free, q_refs c),
)
  where
    c : ℕ
    c = (acquire-done r q t ok e).0

    a : Acquired r q t c
    a = (acquire-done r q t ok e).1

    b : (p : TokenRegistry) × (release t q ≡ done p tt) × Released q t c p
    b = release_lem q t c a.valid (ground (arith, a.resolves t))

    q_refs : (d : ℕ) → q.channel_ref_count d ≡ (if c == d then 1 else r.channel_ref_count d)
    q_refs d = ap (λ (k : ℕ → ℕ). k d) a.refs

    p_refs :
        (d : ℕ)
        → b.0.channel_ref_count d
          ≡ (if c == d then q.channel_ref_count c - 1 else q.channel_ref_count d)
    p_refs d = ap (λ (k : ℕ → ℕ). k d) b.2.refs

    q_groups : (g : ℕ) → q.group_to_channel g ≡ r.group_to_channel g
    q_groups g = ap (λ (k : ℕ → ℕ). k g) a.groups
