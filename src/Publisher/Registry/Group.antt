-- ===== src/Publisher/Registry/Group.antt =====
-- TokenRegistry::acquire for a group: the first member opens a channel, the others join it.
use my_server.Publisher.Registry.Join.{
  group_channel_for-opens, group_below, refs-suc, group_channel_for-joins, joined-IsConsistent,
  joined, in_use_closed,
}
use my_server.Common.{
  ltb, ℕ, ◌+◌, ◌<◌, ◌≤◌, ◌≡◌, ◌≢◌, ◌⊎◌, inl, inr, refl, ap, ◌∙◌, false, some, none, arith, ◌==◌,
  if◌then◌else◌, update, fun_ext, lt→ltb,
}
use my_server.Common.Outcome.{fault, done, threw, ◌>>=◌}
use my_server.Publisher.Types.{ChannelGroup, shared, PublishToken, max_groups, to_index}
use my_server.Publisher.Registry.{
  TokenRegistry, no_free_channels, capacity_exceeded, max_channels, no_channel, acquire_group,
  resolve, open_group, group_channel_for, allocate_token,
}
use my_server.Publisher.Registry.Invariant.{one_more, nothing, Bounded, IsConsistent}
use my_server.Publisher.Registry.Allocate.{
  Allocated, IsExhausted, HasToken, allocate_token_lem, allocate_token_exhausted,
}
use my_server.Publisher.Registry.Acquire.{pop_free_channel_none}
use my_server.Publisher.Registry.Claim.{
  top_channel, claimed, top_below, top_unused, shared-GroupsOk, claimed-IsConsistent,
}

-- What `acquire(group)` has done when it returns `t`, a token of channel `c`: the group's channel,
-- or one that was free.
pub record GroupAcquiredWith (extra : ℕ → ℕ) (r : TokenRegistry) (g : ℕ) (q : TokenRegistry)
    (t : PublishToken) (c : ℕ) : Type 0 where
  pub valid : IsConsistent extra q
  pub below : c < max_channels
  pub joins : r.group_to_channel g ≢ no_channel → c ≡ r.group_to_channel g
  pub opens : r.group_to_channel g ≡ no_channel → r.channel_ref_count c ≡ 0
  pub unused : resolve r t ≡ none
  pub resolves : (s : PublishToken) → resolve q s ≡ (if s == t then some c else resolve r s)
  pub refs : q.channel_ref_count ≡ update r.channel_ref_count c (r.channel_ref_count c + 1)
  pub modes : q.channel_mode ≡ update r.channel_mode c shared
  pub groups : q.group_to_channel ≡ update r.group_to_channel g c

abbrev pub GroupAcquired : TokenRegistry → ℕ → TokenRegistry → PublishToken → ℕ → Type 0
GroupAcquired = GroupAcquiredWith nothing

-- The group has a channel, or one is free.
abbrev pub HasChannel : TokenRegistry → ℕ → Type 0
HasChannel r g =
    (r.group_to_channel g ≢ no_channel)
    ⊎ ((r.group_to_channel g ≡ no_channel) × (0 < r.free_channel_count))

-- `allocateToken` after the group's channel has been found.
acquire_group-done :
    (r s q : TokenRegistry) (group : ChannelGroup) (c : ℕ) (t : PublishToken)
    → to_index group < max_groups
    → group_channel_for (to_index group) r ≡ done s c
    → allocate_token c s ≡ done q t
    → acquire_group group r ≡ done q t
unfolding acquire_group
acquire_group-done r s q group c t gl e a =
    rw (lt→ltb (to_index group) max_groups gl) (rw (e, ◌>>=◌) a)

acquire_group-throws :
    (r s : TokenRegistry) (group : ChannelGroup) (c : ℕ)
    → to_index group < max_groups
    → group_channel_for (to_index group) r ≡ done s c
    → IsExhausted s
    → acquire_group group r ≡ threw s capacity_exceeded
unfolding acquire_group
acquire_group-throws r s group c gl e full =
    rw (lt→ltb (to_index group) max_groups gl) (rw (e, ◌>>=◌) (allocate_token_exhausted s c full))

-- In a valid registry, with a channel of the group or a free one, and a token left,
-- `acquire(group)` returns and leaves a valid registry: a token that did not resolve resolves to
-- the group's channel, which is shared and counts one user more; the other tokens are as before.
pub acquire_group_lem :
    {extra : ℕ → ℕ} (r : TokenRegistry) (group : ChannelGroup)
    → Bounded extra
    → IsConsistent extra r
    → to_index group < max_groups
    → HasChannel r (to_index group)
    → HasToken r
    → (q : TokenRegistry) × (t : PublishToken) × (c : ℕ) × (acquire_group group r ≡ done q t)
      × GroupAcquiredWith extra r (to_index group) q t c
unfolding resolve
acquire_group_lem {extra} r group small ok gl (inl opened) room = (
  a.0,
  a.1,
  c,
  acquire_group-done r _ a.0 group c a.1 gl (group_channel_for-joins r ok g gl opened small) a.2,
  record {
    valid = a.3.valid;
    below = group_below r ok g gl opened small;
    joins = λ ne. refl;
    opens = λ e. absurd (opened e);
    unused = a.3.unused;
    resolves = a.3.resolves;
    refs = a.3.same_refs ∙ ap (update r.channel_ref_count c) (refs-suc r ok g gl opened small);
    modes = a.3.same_modes;
    groups = a.3.same_groups ∙ fun_ext λ h. ground arith;
  },
)
  where
    g : ℕ
    g = to_index group

    c : ℕ
    c = r.group_to_channel g

    a :
        (q : TokenRegistry) × (t : PublishToken) × (allocate_token c (joined r c) ≡ done q t)
        × Allocated extra (joined r c) c q t
    a =
        allocate_token_lem (joined r c) c (joined-IsConsistent r ok g gl opened small)
          (group_below r ok g gl opened small) room
acquire_group_lem {extra} r group small ok gl (inr (closed, pos)) room = (
  a.0,
  a.1,
  c,
  acquire_group-done r _ a.0 group c a.1 gl (group_channel_for-opens r ok g gl closed pos) a.2,
  record {
    valid = a.3.valid;
    below = top_below r ok pos;
    joins = λ ne. absurd (ne closed);
    opens = λ e. top_unused r ok pos;
    unused = a.3.unused;
    resolves = a.3.resolves;
    refs = a.3.same_refs ∙ ap (update r.channel_ref_count c) (omega (arith, top_unused r ok pos));
    modes = a.3.same_modes;
    groups = a.3.same_groups;
  },
)
  where
    g : ℕ
    g = to_index group

    c : ℕ
    c = top_channel r

    claim : TokenRegistry
    claim = claimed r shared (update r.group_to_channel g c)

    a :
        (q : TokenRegistry) × (t : PublishToken) × (allocate_token c claim ≡ done q t)
        × Allocated extra claim c q t
    a =
        allocate_token_lem claim c
          (claimed-IsConsistent r ok pos shared _ (shared-GroupsOk r ok pos g gl))
          (top_below r ok pos) room

-- A group without a channel, while none is free: it throws and has changed nothing.
pub acquire_group_without_channel :
    (r : TokenRegistry) (group : ChannelGroup)
    → to_index group < max_groups
    → r.group_to_channel (to_index group) ≡ no_channel
    → r.free_channel_count ≡ 0
    → acquire_group group r ≡ threw r no_free_channels
unfolding acquire_group group_channel_for open_group
acquire_group_without_channel r group gl e z =
    rw (lt→ltb (to_index group) max_groups gl)
      (rw (in_use_closed r (to_index group) e, ◌>>=◌) (rw (pop_free_channel_none r z, ◌>>=◌)))

-- With a channel for the group and no token left it throws, and the channel has counted one user
-- more, who has no token; every token resolves as before.
pub acquire_group_leaks :
    {extra : ℕ → ℕ} (r : TokenRegistry) (group : ChannelGroup)
    → Bounded extra
    → IsConsistent extra r
    → to_index group < max_groups
    → HasChannel r (to_index group)
    → IsExhausted r
    → (q : TokenRegistry) × (c : ℕ) × (acquire_group group r ≡ threw q capacity_exceeded)
      × IsConsistent (one_more extra c) q
      × (q.channel_ref_count c ≡ r.channel_ref_count c + 1)
      × (c < max_channels)
      × ((s : PublishToken) → resolve q s ≡ resolve r s)
      × (q.channel_mode ≡ update r.channel_mode c shared)
      × ((r.channel_mode c ≡ shared) ⊎ (r.channel_ref_count c ≡ 0))
unfolding resolve
acquire_group_leaks r group small ok gl (inl opened) full = (
  joined r (r.group_to_channel g),
  r.group_to_channel g,
  acquire_group-throws r _ group (r.group_to_channel g) gl
      (group_channel_for-joins r ok g gl opened small) full,
  joined-IsConsistent r ok g gl opened small,
  ground (arith, refs-suc r ok g gl opened small),
  group_below r ok g gl opened small,
  λ s. refl,
  refl,
  inl (ok.channels.groups.is_shared g gl opened),
)
  where
    g : ℕ
    g = to_index group
acquire_group_leaks r group small ok gl (inr (closed, pos)) full = (
  claimed r shared (update r.group_to_channel g (top_channel r)),
  top_channel r,
  acquire_group-throws r _ group (top_channel r) gl (group_channel_for-opens r ok g gl closed pos)
      full,
  claimed-IsConsistent r ok pos shared _ (shared-GroupsOk r ok pos g gl),
  ground (arith, top_unused r ok pos),
  top_below r ok pos,
  λ s. refl,
  refl,
  inr (top_unused r ok pos),
)
  where
    g : ℕ
    g = to_index group

-- `ChannelGroup::Count` fails the assert.
pub acquire_group_out_of_range :
    (r : TokenRegistry) (group : ChannelGroup)
    → max_groups ≤ to_index group
    → acquire_group group r ≡ fault
unfolding acquire_group
acquire_group_out_of_range r group h = rw out
  where
    out : ltb (to_index group) max_groups ≡ false
    out = ground (arith, h)
