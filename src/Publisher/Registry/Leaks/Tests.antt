-- ===== src/Publisher/Registry/Leaks/Tests.antt =====
-- A full TokenRegistry, and the theorems on calls that find no token left at it.
use Registry.{zero}
use my_server.Publisher.Registry
use my_server.Publisher.Registry.{
  no_channel, shared, TokenRegistry, acquire, acquire_group, release, capacity_exceeded,
}
use my_server.Publisher.Registry.Invariant.{IsValid, IsConsistent, nothing}
use my_server.Publisher.Registry.Book.{Call, released}
use my_server.Publisher.Registry.Refines.{perform}
use my_server.Publisher.Registry.Leaks.{sum-nothing, sum, Trail, here, returned, starved}
use my_server.Publisher.Registry.Leaks.Lost.{channel_lost, Trail-IsConsistent}
use my_server.Common.{
  if◌then◌else◌, zero, some, suc, ◌+◌, ◌==◌, false, true, ◌≢◌, ◌≤◌, count, ◌≡◌, ◌<◌, ℕ, arith, refl,
}
use my_server.Common.Outcome.{threw, after}
use my_server.Publisher.Types
use my_server.Publisher.Types.{group0}

-- All 256 tokens are in group 0, on channel 0; the other channels are free.
unfoldable crowded : TokenRegistry
unfolding count
crowded = record {
  next_token = 256;
  token_to_channel = λ t. 0;
  token_used = λ t. true;
  free_tokens = λ i. 0;
  free_token_count = 0;
  free_channels = suc;
  free_channel_count = 3;
  channel_ref_count = λ c. if c == 0 then 256 else 0;
  channel_mode = λ c. shared;
  group_to_channel = λ g. if g == 0 then 0 else no_channel;
}

count-none : (n : ℕ) → count n (λ t. false) ≡ 0
unfolding count
count-none zero = refl
count-none (suc n) = omega (arith, count-none n)

crowded-counted : (c : ℕ) → c < 4 → crowded.channel_ref_count c ≡ count 256 (λ t. 0 == c) + 0
unfolding crowded
crowded-counted zero h = refl
crowded-counted (suc c) h = ground (arith, count-none 256)

crowded-IsValid : IsValid crowded
unfolding crowded
crowded-IsValid = record {
  tokens = record {
    capacity = omega arith;
    stack = record {
      below = λ i h. absurd (omega arith);
      is_free = λ i h. absurd (omega arith);
      distinct = λ i j h k. absurd (omega arith);
      full = refl;
    };
    bound = λ t h u. omega arith;
  };
  channels = record {
    stack = record {
      below = λ i h. omega arith;
      is_free = λ i h. ground arith;
      distinct = λ i j h k. omega arith;
      full = refl;
    };
    solo = λ c h u e. absurd (cc e);
    groups = record {
      live = λ g h ne. ground arith;
      is_shared = λ g h ne. refl;
      distinct = λ g h lt lt' ne e. ground arith;
    };
  };
  counted = λ c h. crowded-counted c h;
}

-- An acquire that throws.
unfoldable short_of_one : TokenRegistry
unfolding crowded acquire Registry.pop_free_channel Registry.set_channel Registry.allocate_token
short_of_one = after crowded (acquire crowded)

acquire_throws : acquire crowded ≡ threw short_of_one capacity_exceeded
unfolding short_of_one
acquire_throws = refl

-- Then one for group 0 that throws, and a release.
unfoldable joined_in_vain : TokenRegistry
unfolding short_of_one perform acquire_group Registry.group_channel_for Registry.in_use
    Registry.join_group Types.to_index
joined_in_vain = after short_of_one (perform (Call.acquire_group group0) short_of_one)

unfoldable given_back : TokenRegistry
unfolding joined_in_vain perform release Registry.give_back Registry.drop_user Registry.free_token
given_back = after joined_in_vain (perform (Call.release 5) joined_in_vain)

calls_after : Trail short_of_one 1 given_back
unfolding given_back
calls_after =
    returned (Call.release 5) released (starved (Call.acquire_group group0) here refl) refl

channel_lost_example :
    (c : ℕ) × (c < 4)
    × (crowded.channel_ref_count c ≡ 0)
    × (given_back.channel_ref_count c ≡ 1)
    × ((t : Types.PublishToken) → Registry.resolve given_back t ≢ some c)
    × ((g : ℕ) → g < 4 → given_back.group_to_channel g ≢ c)
    × ((i : ℕ) → i < given_back.free_channel_count → given_back.free_channels i ≢ c)
channel_lost_example =
    channel_lost nothing 1 crowded short_of_one given_back (omega (arith, sum-nothing 4))
      crowded-IsValid acquire_throws calls_after

all_calls : Trail crowded 2 given_back
unfolding given_back
all_calls =
    returned (Call.release 5) released
      (starved (Call.acquire_group group0) (starved Call.acquire here refl) refl) refl

Trail-IsConsistent_example :
    (extra : ℕ → ℕ) × IsConsistent extra given_back
    × ((c : ℕ) → nothing c ≤ extra c)
    × (sum 4 extra ≡ sum 4 nothing + 2)
Trail-IsConsistent_example =
    Trail-IsConsistent nothing crowded crowded-IsValid 2 given_back (omega (arith, sum-nothing 4))
      all_calls
