-- ===== src/Publisher/Registry/Refines.antt =====
-- TokenRegistry implements its Book: the book that a registry stands for, and its users.
pub mod Calls
pub mod Sessions
mod Tests
use my_server.Publisher.Registry
use my_server.Publisher.Registry.Book.{Call, Reply, token, released, AllInUse}
use my_server.Common.Outcome.{Outcome, done, threw, fault, pure, ◌>>=◌, ◌>>◌}
use my_server.Publisher.Registry.Allocate.{IsExhausted}
use my_server.Publisher.Registry.Invariant.{is_free_channel}
use my_server.Publisher.Registry.Book.{Book, on, users}
use my_server.Common.{
  not, count-pos, ◌≢◌, dec_lt, ◌∙◌, ◌-◌, ap, ℕ, zero, suc, ◌+◌, ◌<◌, ◌≤◌, ◌≡◌, Bool, false, Option,
  none, some, arith, ◌==◌, if◌then◌else◌, count, count-congr, count-suc, bit,
}
use my_server.Publisher.Registry.{
  Error, PublishToken, M, TokenRegistry, max_bindings, max_channels, no_channel, resolve,
}
use my_server.Publisher.Registry.Invariant.{IsValid, holds}

-- A group without a channel has `no_channel` in the code.
abbrev pub to_option : ℕ → Option ℕ
to_option c = if c == no_channel then none else some c

abbrev pub view : TokenRegistry → Book
view r = record {
  channel_of = resolve r;
  mode_of = r.channel_mode;
  group_of = λ g. to_option (r.group_to_channel g);
}

-- What lies past the bound and does not pass the test adds nothing.
count-extend :
    (k n : ℕ) (p : ℕ → Bool) → ((t : ℕ) → n ≤ t → p t ≡ false) → count (k + n) p ≡ count n p
count-extend zero n p h = ap (λ m. count m p) (omega arith)
count-extend (suc k) n p h =
    ap (λ m. count m p) same
    ∙ omega (arith, count-suc (k + n) p, ap bit (h (k + n) (omega arith)), count-extend k n p h)
  where
    same : suc k + n ≡ suc (k + n)
    same = omega arith

-- The reference count of a channel is the number of its users.
pub refs-users :
    (r : TokenRegistry) (c : ℕ)
    → IsValid r
    → c < max_channels
    → r.channel_ref_count c ≡ users (view r) c
unfolding resolve
refs-users r c ok lt = omega (
  arith,
  ok.counted c lt,
  count-congr r.next_token (holds r.token_used r.token_to_channel c) bound
      (λ t tn. ground (arith, ok.tokens.capacity)),
  count-extend (max_bindings - r.next_token) r.next_token bound (λ t le. ground arith),
  ap (λ m. count m bound) same,
)
  where
    bound : ℕ → Bool
    bound t = on c (resolve r t)

    same : max_bindings - r.next_token + r.next_token ≡ max_bindings
    same = omega (arith, ok.tokens.capacity)

-- The calls of the registry, with the replies of the book.
unfoldable pub perform : Call → M Reply
perform Call.acquire = do t ← Registry.acquire; pure (token t)
perform (Call.acquire_group group) = do t ← Registry.acquire_group group; pure (token t)
perform (Call.release t) = do Registry.release t; pure released

abbrev pub view_outcome : Outcome TokenRegistry Error Reply → Outcome Book Error Reply
view_outcome (done q a) = done (view q) a
view_outcome (threw q e) = threw (view q) e
view_outcome fault = fault

-- With an empty stack of free channels, every channel has a user.
pub all_in_use : (r : TokenRegistry) → IsValid r → r.free_channel_count ≡ 0 → AllInUse (view r)
all_in_use r ok z c lt = elim (dec_lt 0 (r.channel_ref_count c)) [
  | yes p ↦ omega (arith, refs-users r c ok lt)
  | no p ↦ absurd (
      omega (
        arith,
        ok.channels.stack.full,
        count-pos max_channels c (is_free_channel r.channel_ref_count) lt (ground arith),
      ))
]

-- With no token left, every token has a channel.
pub all_bound :
    (r : TokenRegistry)
    → IsValid r
    → IsExhausted r
    → (t : PublishToken) → t < max_bindings
    → resolve r t ≢ none
unfolding resolve
all_bound r ok (z, full) t lt e = omega (
  arith,
  ok.tokens.stack.full,
  count-pos r.next_token t (λ s. not (r.token_used s)) (omega arith) (ground arith),
)
