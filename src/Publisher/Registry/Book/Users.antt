-- ===== src/Publisher/Registry/Book/Users.antt =====
-- How the calls that TokenRegistry promises change the number of users of a channel.
use my_server.Common.{ℕ, ◌+◌, ◌<◌, ◌≡◌, arith, bit, ◌==◌, count-differ}
use my_server.Publisher.Types.{ChannelMode, PublishToken}
use my_server.Publisher.Registry.{max_bindings}
use my_server.Publisher.Registry.Book.{Book, on, users, Binds, Releases}

-- A token that had no channel adds a user to the one that it gets.
pub users-Binds :
    (b b' : Book) (t : PublishToken) (c d : ℕ) (m : ChannelMode)
    → Binds b b' t c m
    → users b' d ≡ users b d + bit (c == d)
users-Binds b b' t c d m x = omega (
  arith,
  count-differ max_bindings t (λ s. on d (b.channel_of s)) (λ s. on d (b'.channel_of s))
      (λ s ne. ground (arith, x.binds s)) x.small,
  before,
  after,
)
  where
    before : bit (on d (b.channel_of t)) ≡ 0
    before = ground (arith, x.was_unbound)

    after : bit (on d (b'.channel_of t)) ≡ bit (c == d)
    after = ground (arith, x.binds t)

pub users-Releases :
    (b b' : Book) (t : PublishToken) (c d : ℕ)
    → t < max_bindings
    → Releases b b' t c
    → users b' d + bit (c == d) ≡ users b d
users-Releases b b' t c d lt x = omega (
  arith,
  count-differ max_bindings t (λ s. on d (b.channel_of s)) (λ s. on d (b'.channel_of s))
      (λ s ne. ground (arith, x.unbinds s)) lt,
  before,
  after,
)
  where
    before : bit (on d (b.channel_of t)) ≡ bit (c == d)
    before = ground (arith, x.was_bound)

    after : bit (on d (b'.channel_of t)) ≡ 0
    after = ground (arith, x.unbinds t)
