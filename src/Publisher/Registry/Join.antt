-- ===== src/Publisher/Registry/Join.antt =====
-- TokenRegistry::acquire(ChannelGroup): how a group's channel is joined, or opened.
use my_server.Common.{
  ℕ, ◌+◌, ◌%◌, ◌^◌, ◌<◌, ◌≤◌, ◌≡◌, ◌≢◌, true, false, some, arith, update, count-le, lt→ltb,
}
use my_server.Common.Outcome.{done, ◌>>=◌}
use my_server.Publisher.Types.{shared, max_groups}
use my_server.Publisher.FreeStack.{IsFreeStack-congr}
use my_server.Publisher.Registry.{
  TokenRegistry, max_bindings, max_channels, no_channel, set_group, open_group, join_group, in_use,
  group_channel_for,
}
use my_server.Publisher.Registry.Invariant.{one_more, Bounded, holds, IsConsistent}
use my_server.Publisher.Registry.Acquire.{pop_free_channel_lem, set_channel_lem}
use my_server.Publisher.Registry.Claim.{top_channel, claimed, top_below}

-- One more user of channel `c`.
abbrev pub joined : TokenRegistry → ℕ → TokenRegistry
joined r c = record r {
  channel_ref_count = update r.channel_ref_count c ((r.channel_ref_count c + 1) % 2 ^ 64);
  channel_mode = update r.channel_mode c shared;
}

pub in_use_closed :
    (r : TokenRegistry) (g : ℕ)
    → r.group_to_channel g ≡ no_channel
    → in_use r (r.group_to_channel g) ≡ some false
unfolding in_use
in_use_closed r g e = ground arith

module _ {extra : ℕ → ℕ} (r : TokenRegistry) (ok : IsConsistent extra r) where
  refs-le : (c : ℕ) → c < max_channels → r.channel_ref_count c ≤ max_bindings + extra c
  refs-le c lt = omega (
    arith,
    ok.counted c lt,
    count-le r.next_token (holds r.token_used r.token_to_channel c),
    ok.tokens.capacity,
  )

  module _ (g : ℕ) (gl : g < max_groups) (opened : r.group_to_channel g ≢ no_channel)
      (small : Bounded extra) where
    pub group_below : r.group_to_channel g < max_channels
    group_below = (ok.channels.groups.live g gl opened).0

    group_used : 0 < r.channel_ref_count (r.group_to_channel g)
    group_used = (ok.channels.groups.live g gl opened).1

    pub refs-suc :
        (r.channel_ref_count (r.group_to_channel g) + 1) % 2 ^ 64
        ≡ r.channel_ref_count (r.group_to_channel g) + 1
    refs-suc = omega (
      arith,
      refs-le (r.group_to_channel g) group_below,
      small (r.group_to_channel g) group_below,
    )

    pub joined-IsConsistent :
        IsConsistent (one_more extra (r.group_to_channel g)) (joined r (r.group_to_channel g))
    joined-IsConsistent = record {
      tokens = record {
        capacity = ok.tokens.capacity;
        stack = ok.tokens.stack;
        bound = ok.tokens.bound;
      };
      channels = record {
        stack =
            IsFreeStack-congr _ _ _ _ _ (λ d h. ground (arith, refs-suc, group_used))
              ok.channels.stack;
        solo = λ d h used e. ground (arith, ok.channels.solo d);
        groups = record {
          live = λ h lt ne. ground (arith, ok.channels.groups.live h lt, refs-suc);
          is_shared = λ h lt ne. ground (arith, ok.channels.groups.is_shared h lt);
          distinct = ok.channels.groups.distinct;
        };
      };
      counted = λ d h. ground (arith, ok.counted d h, refs-suc);
    }

    in_use_open : in_use r (r.group_to_channel g) ≡ some true
    unfolding in_use
    in_use_open = ground (arith, group_below, group_used)

    pub group_channel_for-joins :
        group_channel_for g r ≡ done (joined r (r.group_to_channel g)) (r.group_to_channel g)
    unfolding group_channel_for in_use join_group
    group_channel_for-joins =
        rw (in_use_open, group_channel_for)
          (rw (
            set_channel_lem r _ ((r.channel_ref_count (r.group_to_channel g) + 1) % 2 ^ 64) shared
                group_below,
            ◌>>=◌,
          ))

  pub group_channel_for-opens :
      (g : ℕ)
      → g < max_groups
      → r.group_to_channel g ≡ no_channel
      → 0 < r.free_channel_count
      → group_channel_for g r
        ≡ done (claimed r shared (update r.group_to_channel g (top_channel r))) (top_channel r)
  unfolding group_channel_for open_group set_group
  group_channel_for-opens g gl e pos =
      rw (in_use_closed r g e, group_channel_for)
        (rw (
          pop_free_channel_lem r ok pos,
          ◌>>=◌,
          set_channel_lem _ (top_channel r) 1 shared (top_below r ok pos),
          lt→ltb g max_groups gl,
        ))
