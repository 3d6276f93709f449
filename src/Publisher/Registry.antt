-- ===== src/Publisher/Registry.antt =====
-- modules/publisher/include/publisher/runtime/token_registry.hpp: the class TokenRegistry.
-- An array is a function of its index, and each access tests the index against the array's size.
-- `std::size_t` is 64 bits wide. A failed assert and an index out of range are `fault`.
pub mod Invariant
pub mod Allocate
pub mod Claim
pub mod Acquire
pub mod Join
pub mod Group
pub mod Retire
pub mod Release
pub mod History
pub mod Isolation
pub mod Book
pub mod Refines
pub mod Leaks
use my_server.Common.{
  ℕ, zero, suc, ◌+◌, ◌-◌, ◌%◌, ◌^◌, Bool, true, false, not, ◌&&◌, Option, none, some, ltb, leb,
  ◌==◌, if◌then◌else◌, update,
}
use my_server.Common.Outcome.{Outcome, done, threw, fault, pure, ◌>>=◌, ◌>>◌}
use my_server.Publisher.Types.{
  ChannelGroup, ChannelMode, exclusive, shared, PublishToken, max_groups, to_index,
}

abbrev pub max_bindings : ℕ
max_bindings = 256

abbrev pub max_channels : ℕ
max_channels = 4

abbrev pub no_channel : ℕ
no_channel = 2 ^ 64 - 1

pub record TokenRegistry : Type 0 where
  pub next_token : ℕ
  pub token_to_channel : ℕ → ℕ
  pub token_used : ℕ → Bool
  pub free_tokens : ℕ → PublishToken
  pub free_token_count : ℕ
  pub free_channels : ℕ → ℕ
  pub free_channel_count : ℕ
  pub channel_ref_count : ℕ → ℕ
  pub channel_mode : ℕ → ChannelMode
  pub group_to_channel : ℕ → ℕ

-- The `std::runtime_error`s of the class.
pub data Error : Type 0 where
  invalid_token already_free pool_overflow no_free_channels capacity_exceeded : Error

abbrev pub M : Type 0 → Type 0
M A = TokenRegistry → Outcome TokenRegistry Error A

-- The constructor. `channelMode_{}` starts with the zero of its type, `Exclusive`.
unfoldable pub new : TokenRegistry
new = record {
  next_token = 0;
  token_to_channel = λ t. 0;
  token_used = λ t. false;
  free_tokens = λ i. 0;
  free_token_count = 0;
  free_channels = λ i. i;
  free_channel_count = max_channels;
  channel_ref_count = λ c. 0;
  channel_mode = λ c. exclusive;
  group_to_channel = λ g. no_channel;
}

unfoldable pub pop_free_channel : M ℕ
pop_free_channel r =
    let n = r.free_channel_count - 1 in
    if r.free_channel_count == 0
    then threw r no_free_channels
    else if ltb n max_channels
    then done (record r { free_channel_count = n }) (r.free_channels n)
    else fault

unfoldable pub push_free_channel : ℕ → M (Unit {0})
push_free_channel c r =
    let n = r.free_channel_count in
    if ltb n max_channels
    then done (record r { free_channels = update r.free_channels n c; free_channel_count = n + 1 })
        tt
    else fault

pub is_valid_token : TokenRegistry → PublishToken → Bool
is_valid_token r t = ltb t r.next_token

-- `tokenToChannel_[t] = c; tokenUsed_[t] = true; return t;`.
bind_token : PublishToken → ℕ → M PublishToken
bind_token t c r =
    if ltb t max_bindings
    then done
        (record r {
          token_to_channel = update r.token_to_channel t c;
          token_used = update r.token_used t true;
        })
        t
    else fault

-- `nextToken_` is 32 bits wide.
unfoldable pub allocate_token : ℕ → M PublishToken
unfolding bind_token
allocate_token c r =
    let n = r.free_token_count - 1 in
    if ltb 0 r.free_token_count
    then (if ltb n max_bindings
        then bind_token (r.free_tokens n) c (record r { free_token_count = n })
        else fault)
    else if leb max_bindings r.next_token
    then threw r capacity_exceeded
    else bind_token r.next_token c (record r { next_token = (r.next_token + 1) % 2 ^ 32 })

-- Writes the reference count and the mode of a channel.
unfoldable pub set_channel : ℕ → ℕ → ChannelMode → M (Unit {0})
set_channel c refs mode r =
    if ltb c max_channels
    then done
        (record r {
          channel_ref_count = update r.channel_ref_count c refs;
          channel_mode = update r.channel_mode c mode;
        })
        tt
    else fault

unfoldable pub acquire : M PublishToken
acquire = do c ← pop_free_channel; set_channel c 1 exclusive; allocate_token c

-- `groupToChannel_[g] = c`.
unfoldable pub set_group : ℕ → ℕ → M (Unit {0})
set_group g c r =
    if ltb g max_groups
    then done (record r { group_to_channel = update r.group_to_channel g c }) tt
    else fault

-- The group has no channel in use: a new one is allocated for it.
unfoldable pub open_group : ℕ → M ℕ
open_group g = do c ← pop_free_channel; set_channel c 1 shared; set_group g c; pure c

-- The group has a channel in use: one more user of it.
unfoldable pub join_group : ℕ → M ℕ
join_group c r = (do set_channel c ((r.channel_ref_count c + 1) % 2 ^ 64) shared; pure c) r

-- `channelIdx != kNoChannel && channelRefCount_[channelIdx] > 0`, or `none` where the index is out
-- of range.
unfoldable pub in_use : TokenRegistry → ℕ → Option Bool
in_use r c =
    if c == no_channel
    then some false
    else if ltb c max_channels
    then some (ltb 0 (r.channel_ref_count c))
    else none

unfoldable pub group_channel_for : ℕ → M ℕ
group_channel_for g r = elim (in_use r (r.group_to_channel g)) [
  | none ↦ fault
  | some true ↦ join_group (r.group_to_channel g) r
  | some false ↦ open_group g r
]

unfoldable pub acquire_group : ChannelGroup → M PublishToken
acquire_group group r =
    let g = to_index group in
    if ltb g max_groups then (do c ← group_channel_for g; allocate_token c) r else fault

-- The loop of `release` over the groups, from `g` on for `rounds` rounds, with its `break`.
unfoldable pub reset_group : ℕ → ℕ → ℕ → (ℕ → ℕ) → ℕ → ℕ
reset_group zero g c groups = groups
reset_group (suc rounds) g c groups =
    if groups g == c then update groups g no_channel else reset_group rounds (suc g) c groups

-- The last user of the channel has gone.
retire_channel : ℕ → M (Unit {0})
unfolding push_free_channel
retire_channel c r =
    (do
      push_free_channel c
      λ r'.
          done (record r' { group_to_channel = reset_group max_groups 0 c r'.group_to_channel }) tt)
      r

unfoldable pub drop_user : ℕ → M (Unit {0})
unfolding retire_channel
drop_user c r =
    let left = r.channel_ref_count c - 1 in
    let r' = record r { channel_ref_count = update r.channel_ref_count c left } in
    if ltb c max_channels && ltb 0 (r.channel_ref_count c)
    then (if left == 0 then retire_channel c r' else done r' tt)
    else fault

-- `tokenUsed_[t] = false; freeTokens_[freeTokenCount_++] = t;`, after the test of the count.
unfoldable pub free_token : PublishToken → M (Unit {0})
free_token t r =
    done
      (record r {
        token_used = update r.token_used t false;
        free_tokens = update r.free_tokens r.free_token_count t;
        free_token_count = r.free_token_count + 1;
      })
      tt

-- The part of `release` after its tests.
unfoldable pub give_back : PublishToken → M (Unit {0})
give_back t r = (do drop_user (r.token_to_channel t); free_token t) r

unfoldable pub release : PublishToken → M (Unit {0})
unfolding is_valid_token
release t r =
    if not (is_valid_token r t)
    then threw r invalid_token
    else if not (ltb t max_bindings)
    then fault
    else if not (r.token_used t)
    then threw r already_free
    else if leb max_bindings r.free_token_count
    then threw r pool_overflow
    else give_back t r

-- The const methods: `none` where an assert fails or an index is out of range.
unfoldable pub resolve : TokenRegistry → PublishToken → Option ℕ
unfolding is_valid_token
resolve r t =
    if is_valid_token r t && ltb t max_bindings && r.token_used t
    then some (r.token_to_channel t)
    else none

unfoldable pub channel_ref_count : TokenRegistry → ℕ → Option ℕ
channel_ref_count r c = if ltb c max_channels then some (r.channel_ref_count c) else none

unfoldable pub channel_mode : TokenRegistry → ℕ → Option ChannelMode
channel_mode r c = if ltb c max_channels then some (r.channel_mode c) else none

unfoldable pub group_channel : TokenRegistry → ChannelGroup → Option ℕ
unfolding to_index
group_channel r group =
    if ltb (to_index group) max_groups then some (r.group_to_channel (to_index group)) else none
