-- ===== src/Publisher/Registry/Invariant.antt =====
-- The representation invariant of TokenRegistry (token_registry.hpp).
use my_server.Common.{
  ◌^◌, ℕ, ◌<◌, ◌≤◌, ◌+◌, ◌≡◌, ◌≢◌, refl, Bool, true, not, ◌&&◌, arith, ◌==◌, count, bit,
}
use my_server.Publisher.Types.{ChannelMode, exclusive, shared, max_groups}
use my_server.Publisher.FreeStack.{IsFreeStack}
use my_server.Publisher.Registry.{TokenRegistry, max_bindings, max_channels, no_channel, new}

-- Token `t` is handed out on channel `c`.
abbrev pub holds : (ℕ → Bool) → (ℕ → ℕ) → ℕ → ℕ → Bool
holds used channel c t = used t && (channel t == c)

-- How many tokens are handed out on channel `c`.
abbrev pub holders : TokenRegistry → ℕ → ℕ
holders r c = count r.next_token (holds r.token_used r.token_to_channel c)

abbrev pub is_free_channel : (ℕ → ℕ) → ℕ → Bool
is_free_channel refs c = refs c == 0

pub record TokensOk (r : TokenRegistry) : Type 0 where
  pub capacity : r.next_token ≤ max_bindings
  pub stack : IsFreeStack r.next_token (λ t. not (r.token_used t)) r.free_tokens r.free_token_count
  pub bound :
      (t : ℕ) → t < r.next_token → r.token_used t ≡ true → r.token_to_channel t < max_channels

-- A group's channel is in use, shared, and no other group's.
pub record GroupsOk (refs : ℕ → ℕ) (mode : ℕ → ChannelMode) (groups : ℕ → ℕ) : Type 0 where
  pub live :
      (g : ℕ)
      → g < max_groups
      → groups g ≢ no_channel
      → (groups g < max_channels) × (0 < refs (groups g))
  pub is_shared : (g : ℕ) → g < max_groups → groups g ≢ no_channel → mode (groups g) ≡ shared
  pub distinct :
      (g h : ℕ)
      → g < max_groups
      → h < max_groups
      → groups g ≢ no_channel
      → groups g ≡ groups h
      → g ≡ h

pub record ChannelsOk (r : TokenRegistry) : Type 0 where
  pub stack :
      IsFreeStack max_channels
        (is_free_channel r.channel_ref_count)
        r.free_channels
        r.free_channel_count
  pub solo :
      (c : ℕ)
      → c < max_channels
      → 0 < r.channel_ref_count c
      → r.channel_mode c ≡ exclusive
      → r.channel_ref_count c ≡ 1
  pub groups : GroupsOk r.channel_ref_count r.channel_mode r.group_to_channel

-- The reference count of a channel `c` is the number of its tokens, and `extra c` users without one.
pub record IsConsistent (extra : ℕ → ℕ) (r : TokenRegistry) : Type 0 where
  pub tokens : TokensOk r
  pub channels : ChannelsOk r
  pub counted : (c : ℕ) → c < max_channels → r.channel_ref_count c ≡ holders r c + extra c

abbrev pub nothing : ℕ → ℕ
nothing c = 0

abbrev pub one_more : (ℕ → ℕ) → ℕ → ℕ → ℕ
one_more extra c d = extra d + bit (d == c)

-- So few that no reference count wraps.
abbrev pub Bounded : (ℕ → ℕ) → Type 0
Bounded extra = (c : ℕ) → c < max_channels → extra c + max_bindings + 1 < 2 ^ 64

pub nothing-Bounded : Bounded nothing
nothing-Bounded c h = omega arith

-- The reference count of a channel is the number of its tokens.
abbrev pub IsValid : TokenRegistry → Type 0
IsValid r = IsConsistent nothing r

-- What the constructor builds is valid.
pub new-IsValid : IsValid new
unfolding new count
new-IsValid = record {
  tokens = record {
    capacity = omega arith;
    stack = record {
      below = λ i h. absurd (omega arith);
      is_free = λ i h. absurd (omega arith);
      distinct = λ i j h k. absurd (omega arith);
      full = refl;
    };
    bound = λ t h u. absurd (omega arith);
  };
  channels = record {
    stack = record {
      below = λ i h. omega arith;
      is_free = λ i h. refl;
      distinct = λ i j h k. omega arith;
      full = refl;
    };
    solo = λ c h u e. absurd (omega arith);
    groups = record {
      live = λ g h ne. absurd (ne refl);
      is_shared = λ g h ne. absurd (ne refl);
      distinct = λ g h lt lt' ne. absurd (ne refl);
    };
  };
  counted = λ c h. refl;
}
