-- ===== src/Publisher/Registry/Book.antt =====
-- What TokenRegistry (token_registry.hpp) promises, apart from how it keeps it: which channel each
-- token has, the modes of the channels and the channels of the groups. There are no free stacks, no
-- counters and no order of reuse; the users of a channel are its tokens.
pub mod Users
pub mod Sound
use my_server.Common.{
  ℕ, ◌<◌, ◌≤◌, ◌≡◌, ◌≢◌, Bool, false, Option, none, some, ◌&&◌, ◌==◌, if◌then◌else◌, count,
}
use my_server.Common.Outcome.{Outcome, done, threw, fault}
use my_server.Publisher.Types.{
  ChannelGroup, ChannelMode, exclusive, shared, PublishToken, max_groups, to_index,
}
use my_server.Publisher.Registry.{
  Error, invalid_token, already_free, no_free_channels, capacity_exceeded, max_bindings,
  max_channels,
}

pub record Book : Type 0 where
  pub channel_of : PublishToken → Option ℕ
  pub mode_of : ℕ → ChannelMode
  pub group_of : ℕ → Option ℕ

abbrev pub on : ℕ → Option ℕ → Bool
on c none = false
on c (some d) = d == c

abbrev pub users : Book → ℕ → ℕ
users b c = count max_bindings (λ t. on c (b.channel_of t))

-- The calls, and what they return.
pub data Call : Type 0 where
  acquire : Call
  acquire_group : ChannelGroup → Call
  release : PublishToken → Call

pub data Reply : Type 0 where
  token : PublishToken → Reply
  released : Reply

-- Token `t`, which had no channel, has `c` in mode `m`; the other tokens and modes are as before.
pub record Binds (b b' : Book) (t : PublishToken) (c : ℕ) (m : ChannelMode) : Type 0 where
  pub below : c < max_channels
  pub small : t < max_bindings
  pub was_unbound : b.channel_of t ≡ none
  pub binds : (s : PublishToken) → b'.channel_of s ≡ (if s == t then some c else b.channel_of s)
  pub sets_mode : (d : ℕ) → b'.mode_of d ≡ (if c == d then m else b.mode_of d)

-- The groups of index below the bound have the same channels.
abbrev pub SameGroups : Book → Book → Type 0
SameGroups b b' = (g : ℕ) → g < max_groups → b'.group_of g ≡ b.group_of g

pub record Acquires (b b' : Book) (t : PublishToken) (c : ℕ) : Type 0 where
  pub bound : Binds b b' t c exclusive
  pub was_free : users b c ≡ 0
  pub same_groups : SameGroups b b'

-- The group's channel, or one that nobody used, which becomes the group's.
pub record Joins (b b' : Book) (g : ℕ) (t : PublishToken) (c : ℕ) : Type 0 where
  pub in_range : g < max_groups
  pub bound : Binds b b' t c shared
  pub joins : (d : ℕ) → b.group_of g ≡ some d → c ≡ d
  pub opens : b.group_of g ≡ none → users b c ≡ 0
  pub sets_group :
      (h : ℕ) → h < max_groups → b'.group_of h ≡ (if g == h then some c else b.group_of h)

-- Token `t` loses its channel `c`; with its last token the channel is no group's.
pub record Releases (b b' : Book) (t : PublishToken) (c : ℕ) : Type 0 where
  pub was_bound : b.channel_of t ≡ some c
  pub unbinds : (s : PublishToken) → b'.channel_of s ≡ (if s == t then none else b.channel_of s)
  pub same_modes : b'.mode_of ≡ b.mode_of
  pub leaves_groups :
      (h : ℕ)
      → h < max_groups
      → b'.group_of h ≡ (if (users b c == 1) && on c (b.group_of h) then none else b.group_of h)

abbrev pub AllInUse : Book → Type 0
AllInUse b = (c : ℕ) → c < max_channels → 0 < users b c

abbrev pub AllBound : Book → Type 0
AllBound b = (t : PublishToken) → t < max_bindings → b.channel_of t ≢ none

abbrev pub SameTokens : Book → Book → Type 0
SameTokens b b' = (t : PublishToken) → b'.channel_of t ≡ b.channel_of t

-- What a refused call says of the book; a registry out of tokens keeps the tokens, and nothing is said
-- of its groups.
abbrev pub Refuses : Book → Call → Book → Error → Type 0
Refuses b acquire b' no_free_channels = (b' ≡ b) × AllInUse b
Refuses b (acquire_group group) b' no_free_channels =
    (b' ≡ b) × AllInUse b × (b.group_of (to_index group) ≡ none)
Refuses b (release t) b' already_free = (b' ≡ b) × (b.channel_of t ≡ none) × (t < max_bindings)
Refuses b (release t) b' invalid_token = (b' ≡ b) × (b.channel_of t ≡ none)
Refuses b acquire b' capacity_exceeded = AllBound b × SameTokens b b'
Refuses b (acquire_group group) b' capacity_exceeded = AllBound b × SameTokens b b'
Refuses b call b' error = ⊥

abbrev pub Answers : Book → Call → Book → Reply → Type 0
Answers b acquire b' (token t) = (c : ℕ) × Acquires b b' t c
Answers b (acquire_group group) b' (token t) = (c : ℕ) × Joins b b' (to_index group) t c
Answers b (release t) b' released = (c : ℕ) × Releases b b' t c
Answers b call b' reply = ⊥

-- A group that is none of the groups is a programming error.
abbrev pub Faults : Call → Type 0
Faults (acquire_group group) = max_groups ≤ to_index group
Faults call = ⊥

-- Every result that a call on the book `b` may have.
abbrev pub Allows : Book → Call → Outcome Book Error Reply → Type 0
Allows b call (done b' reply) = Answers b call b' reply
Allows b call (threw b' error) = Refuses b call b' error
Allows b call fault = Faults call

-- What a client sees of a call.
pub data Response : Type 0 where
  answered : Reply → Response
  refused : Error → Response

-- A call on the book, but for one that finds every token bound.
abbrev pub Promises : Book → Call × Response → Book → Type 0
Promises b (call, answered reply) b' = Allows b call (done b' reply)
Promises b (call, refused error) b' = Allows b call (threw b' error) × (error ≢ capacity_exceeded)

-- No token has a channel, and no group has one.
abbrev pub empty_book : Book
empty_book = record { channel_of = λ t. none; mode_of = λ c. exclusive; group_of = λ g. none }
