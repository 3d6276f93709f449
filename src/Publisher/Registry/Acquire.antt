-- ===== src/Publisher/Registry/Acquire.antt =====
-- TokenRegistry::acquire, for an exclusive channel and for a group.
use my_server.Publisher.Registry.Claim.{
  top_channel, claimed, top_below, top_unused, claimed-IsConsistent, exclusive-GroupsOk,
}
use my_server.Common.{
  refl, ℕ, ◌+◌, ◌-◌, ◌<◌, ◌≡◌, ◌∙◌, some, none, arith, ◌==◌, if◌then◌else◌, update,
}
use my_server.Common.Outcome.{◌>>=◌, done, threw}
use my_server.Publisher.Types.{ChannelMode, exclusive, PublishToken}
use my_server.Publisher.FreeStack.{IsFreeStack-le}
use my_server.Publisher.Registry.{
  TokenRegistry, no_free_channels, capacity_exceeded, max_channels, acquire, resolve,
  pop_free_channel, set_channel, allocate_token,
}
use my_server.Publisher.Registry.Invariant.{IsConsistent, nothing, one_more}
use my_server.Publisher.Registry.Allocate.{
  Allocated, IsExhausted, HasToken, allocate_token_lem, allocate_token_exhausted,
}

-- What `acquire` has done when it returns `t`: `c`, a channel that was free, has the one user `t`.
pub record AcquiredWith (extra : ℕ → ℕ) (r : TokenRegistry) (q : TokenRegistry) (t : PublishToken)
    (c : ℕ) : Type 0 where
  pub valid : IsConsistent extra q
  pub below : c < max_channels
  pub was_free : r.channel_ref_count c ≡ 0
  pub unused : resolve r t ≡ none
  pub resolves : (s : PublishToken) → resolve q s ≡ (if s == t then some c else resolve r s)
  pub refs : q.channel_ref_count ≡ update r.channel_ref_count c 1
  pub modes : q.channel_mode ≡ update r.channel_mode c exclusive
  pub groups : q.group_to_channel ≡ r.group_to_channel
  pub free : q.free_channel_count + 1 ≡ r.free_channel_count

abbrev pub Acquired : TokenRegistry → TokenRegistry → PublishToken → ℕ → Type 0
Acquired = AcquiredWith nothing

pub pop_free_channel_lem :
    {extra : ℕ → ℕ} (r : TokenRegistry)
    → IsConsistent extra r
    → 0 < r.free_channel_count
    → pop_free_channel r
      ≡ done (record r { free_channel_count = r.free_channel_count - 1 }) (top_channel r)
unfolding pop_free_channel
pop_free_channel_lem r ok pos = ground (arith, IsFreeStack-le _ _ _ _ ok.channels.stack)

pub pop_free_channel_none :
    (r : TokenRegistry) → r.free_channel_count ≡ 0 → pop_free_channel r ≡ threw r no_free_channels
unfolding pop_free_channel
pop_free_channel_none r e = ground arith

pub set_channel_lem :
    (r : TokenRegistry) (c refs : ℕ) (mode : ChannelMode)
    → c < max_channels
    → set_channel c refs mode r
      ≡ done
          (record r {
            channel_ref_count = update r.channel_ref_count c refs;
            channel_mode = update r.channel_mode c mode;
          })
          tt
unfolding set_channel
set_channel_lem r c refs mode lt = ground arith

acquire-claims :
    {extra : ℕ → ℕ} (r : TokenRegistry)
    → IsConsistent extra r
    → 0 < r.free_channel_count
    → acquire r ≡ allocate_token (top_channel r) (claimed r exclusive r.group_to_channel)
unfolding acquire
acquire-claims r ok pos = rw (
  pop_free_channel_lem r ok pos,
  ◌>>=◌,
  set_channel_lem _ (top_channel r) 1 exclusive (top_below r ok pos),
)

-- In a valid registry, with a free channel and a token left, `acquire` returns and leaves a valid
-- registry: a token that did not resolve resolves to a channel that was free, which is exclusive
-- and has one user; the other tokens and the groups are as before.
pub acquire_lem :
    {extra : ℕ → ℕ} (r : TokenRegistry)
    → IsConsistent extra r
    → 0 < r.free_channel_count
    → HasToken r
    → (q : TokenRegistry) × (t : PublishToken) × (c : ℕ) × (acquire r ≡ done q t)
      × AcquiredWith extra r q t c
unfolding resolve
acquire_lem {extra} r ok pos room = (
  a.0,
  a.1,
  top_channel r,
  acquire-claims r ok pos ∙ a.2,
  record {
    valid = a.3.valid;
    below = top_below r ok pos;
    was_free = top_unused r ok pos;
    unused = a.3.unused;
    resolves = a.3.resolves;
    refs = a.3.same_refs;
    modes = a.3.same_modes;
    groups = a.3.same_groups;
    free = ground (arith, a.3.same_free);
  },
)
  where
    claim : TokenRegistry
    claim = claimed r exclusive r.group_to_channel

    a :
        (q : TokenRegistry) × (t : PublishToken) × (allocate_token (top_channel r) claim ≡ done q t)
        × Allocated extra claim (top_channel r) q t
    a =
        allocate_token_lem claim (top_channel r)
          (claimed-IsConsistent r ok pos exclusive r.group_to_channel (exclusive-GroupsOk r ok pos))
          (top_below r ok pos) room

-- With no free channel it throws and has changed nothing.
pub acquire_without_channel :
    (r : TokenRegistry) → r.free_channel_count ≡ 0 → acquire r ≡ threw r no_free_channels
unfolding acquire
acquire_without_channel r e = rw (pop_free_channel_none r e, ◌>>=◌)

-- With a free channel and no token left, `acquire` throws and keeps the channel, which counts one user
-- without a token: the registry that it leaves has one such user more than before, and every token
-- resolves as before.
pub acquire_leaks :
    {extra : ℕ → ℕ} (r : TokenRegistry)
    → IsConsistent extra r
    → 0 < r.free_channel_count
    → IsExhausted r
    → (q : TokenRegistry) × (acquire r ≡ threw q capacity_exceeded)
      × IsConsistent (one_more extra (top_channel r)) q
      × (q.free_channel_count + 1 ≡ r.free_channel_count)
      × ¬ IsConsistent extra q
      × ((s : PublishToken) → resolve q s ≡ resolve r s)
      × (q.channel_mode ≡ update r.channel_mode (top_channel r) exclusive)
unfolding resolve
acquire_leaks {extra} r ok pos full = (
  claim,
  acquire-claims r ok pos ∙ allocate_token_exhausted claim (top_channel r) full,
  leaked,
  omega arith,
  λ v.
      ground (arith, v.counted (top_channel r), leaked.counted (top_channel r), top_below r ok pos),
  λ s. refl,
  refl,
)
  where
    claim : TokenRegistry
    claim = claimed r exclusive r.group_to_channel

    leaked : IsConsistent (one_more extra (top_channel r)) claim
    leaked =
        claimed-IsConsistent r ok pos exclusive r.group_to_channel (exclusive-GroupsOk r ok pos)
