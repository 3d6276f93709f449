-- ===== src/Publisher/Registry/Claim.antt =====
-- TokenRegistry: the channel on top of the free stack, taken for one user.
use my_server.Common.{ℕ, ◌-◌, ◌<◌, ◌≡◌, ◌≢◌, ap, arith, update}
use my_server.Publisher.Types.{ChannelMode, exclusive, shared, max_groups}
use my_server.Publisher.FreeStack.{IsFreeStack-congr, IsFreeStack-pop}
use my_server.Publisher.Registry.{TokenRegistry, max_channels, no_channel}
use my_server.Publisher.Registry.Invariant.{GroupsOk, IsConsistent, one_more}

-- The channel on top of the free stack.
abbrev pub top_channel : TokenRegistry → ℕ
top_channel r = r.free_channels (r.free_channel_count - 1)

-- The state in which that channel has been taken, for one user.
abbrev pub claimed : TokenRegistry → ChannelMode → (ℕ → ℕ) → TokenRegistry
claimed r mode groups = record r {
  free_channel_count = r.free_channel_count - 1;
  channel_ref_count = update r.channel_ref_count (top_channel r) 1;
  channel_mode = update r.channel_mode (top_channel r) mode;
  group_to_channel = groups;
}

module _ {extra : ℕ → ℕ} (r : TokenRegistry) (ok : IsConsistent extra r)
    (pos : 0 < r.free_channel_count) where
  pub top_below : top_channel r < max_channels
  top_below = ok.channels.stack.below (r.free_channel_count - 1) (omega arith)

  pub top_unused : r.channel_ref_count (top_channel r) ≡ 0
  top_unused = ground (arith, ok.channels.stack.is_free (r.free_channel_count - 1) (omega arith))

  -- A group's channel is not on the free stack.
  not_of_group :
      (g : ℕ)
      → g < max_groups
      → r.group_to_channel g ≢ no_channel
      → r.group_to_channel g ≢ top_channel r
  not_of_group g lt ne e =
      omega (arith, (ok.channels.groups.live g lt ne).1, ap r.channel_ref_count e, top_unused)

  pub claimed-IsConsistent :
      (mode : ChannelMode) (groups : ℕ → ℕ)
      → GroupsOk
          (update r.channel_ref_count (top_channel r) 1)
          (update r.channel_mode (top_channel r) mode)
          groups
      → IsConsistent (one_more extra (top_channel r)) (claimed r mode groups)
  claimed-IsConsistent mode groups grouped = record {
    tokens = record {
      capacity = ok.tokens.capacity;
      stack = ok.tokens.stack;
      bound = ok.tokens.bound;
    };
    channels = record {
      stack =
          IsFreeStack-congr _ _ _ _ _ (λ d h. ground arith)
            (IsFreeStack-pop _ _ _ _ ok.channels.stack pos);
      solo = λ d h used e. ground (arith, ok.channels.solo d);
      groups = grouped;
    };
    counted = λ d h. ground (arith, ok.counted d h, top_unused);
  }

  pub exclusive-GroupsOk :
      GroupsOk
        (update r.channel_ref_count (top_channel r) 1)
        (update r.channel_mode (top_channel r) exclusive)
        r.group_to_channel
  exclusive-GroupsOk = record {
    live = λ g lt ne. ground (arith, ok.channels.groups.live g lt ne);
    is_shared =
        λ g lt ne. ground (arith, ok.channels.groups.is_shared g lt ne, not_of_group g lt ne);
    distinct = ok.channels.groups.distinct;
  }

  pub shared-GroupsOk :
      (g : ℕ)
      → g < max_groups
      → GroupsOk
          (update r.channel_ref_count (top_channel r) 1)
          (update r.channel_mode (top_channel r) shared)
          (update r.group_to_channel g (top_channel r))
  shared-GroupsOk g gl = record {
    live = λ h lt ne. ground (arith, ok.channels.groups.live h lt, top_below);
    is_shared = λ h lt ne. ground (arith, ok.channels.groups.is_shared h lt);
    distinct = λ h k lt lt' ne e.
        ground
          (arith, ok.channels.groups.distinct h k lt lt', not_of_group h lt, not_of_group k lt');
  }
