-- ===== src/Publisher/Registry/Leaks/Lost.antt =====
-- TokenRegistry (token_registry.hpp): what failed calls cost its clients.
use my_server.Publisher.Registry.Allocate.{has_room}
use my_server.Publisher.Registry.Acquire.{acquire_leaks, acquire_lem, acquire_without_channel}
use my_server.Publisher.Registry.Claim.{top_unused, top_below, top_channel}
use Registry.{exclusive}
use my_server.Publisher.Registry.Isolation.{resolve-holds, exclusive_alone}
use my_server.Publisher.Registry.Invariant.{holds, one_more, Bounded}
use my_server.Publisher.Registry.Leaks.Calls.{perform-After, After}
use my_server.Publisher.Registry.{
  max_groups, acquire, ChannelMode, shared, resolve, PublishToken, done, Outcome, no_free_channels,
  pool_overflow, already_free, invalid_token, threw, capacity_exceeded, max_bindings, Error,
  max_channels, TokenRegistry,
}
use my_server.Publisher.Registry
use my_server.Publisher.Registry.Book.{Call, Reply}
use my_server.Publisher.Registry.Leaks.{
  sum-one_more, perform, refused, here, starved, returned, Trail, IsConsistent, sum, Keeps,
  Keeps-self, Keeps-trans, le-sum,
}
use my_server.Common.{
  ◌≤◌, inl, inr, ℕ_discrete, count-pos, some, subst, ◌^◌, ◌≢◌, ℕ, suc, ◌+◌, ◌<◌, ◌≡◌, refl, arith,
}

refused-Keeps :
    (extra : ℕ → ℕ) (r q : TokenRegistry) (error : Error)
    → IsConsistent extra r
    → error ≢ capacity_exceeded
    → After extra r (threw q error)
    → Keeps extra 0 r q
refused-Keeps extra r q capacity_exceeded ok ne a = absurd (ne refl)
refused-Keeps extra r q invalid_token ok ne a = rw a (Keeps-self extra r ok)
refused-Keeps extra r q already_free ok ne a = rw a (Keeps-self extra r ok)
refused-Keeps extra r q pool_overflow ok ne a = rw a (Keeps-self extra r ok)
refused-Keeps extra r q no_free_channels ok ne a = rw a (Keeps-self extra r ok)

sum-Bounded : (extra : ℕ → ℕ) → sum max_channels extra + max_bindings + 1 < 2 ^ 64 → Bounded extra
sum-Bounded extra lt c below = omega (arith, le-sum max_channels c extra below)

module _ (extra : ℕ → ℕ) (r : TokenRegistry) (ok : IsConsistent extra r) where
  -- What the next call leaves.
  next-After :
      (n : ℕ) (s : TokenRegistry) (call : Call) (o : Outcome TokenRegistry Error Reply)
      → sum max_channels extra + n + max_bindings + 1 < 2 ^ 64
      → (k : Keeps extra n r s) → perform call s ≡ o
      → After k.extra' s o
  next-After n s call o small k e = subst (After k.extra' s) e (
      perform-After k.extra' s call k.consistent
        (sum-Bounded k.extra' (omega (arith, k.total, small))))

  Keeps-next :
      (n : ℕ) (s q : TokenRegistry) (k : Keeps extra n r s)
      → Keeps k.extra' 0 s q
      → Keeps extra n r q
  Keeps-next n s q k l =
      let same : n + 0 ≡ n = omega arith in
      subst (λ j. Keeps extra j r q) same (Keeps-trans extra n 0 r s q k l)

  pub Trail-Keeps :
      (n : ℕ) (q : TokenRegistry)
      → sum max_channels extra + n + max_bindings + 1 < 2 ^ 64
      → Trail r n q
      → Keeps extra n r q
  Trail-Keeps n q small here = Keeps-self extra r ok
  Trail-Keeps n q small (returned {s = s} call reply old e) =
      let k = Trail-Keeps n s small old in
      Keeps-next n s q k (next-After n s call (done q reply) small k e)
  Trail-Keeps n q small (refused {s = s} call error old e ne) =
      let k = Trail-Keeps n s small old in
      Keeps-next n s q k (
        refused-Keeps k.extra' s q error k.consistent ne
          (next-After n s call (threw q error) small k e))
  Trail-Keeps (suc n) q small (starved {s = s} call old e) =
      let less : sum max_channels extra + n + max_bindings + 1 < 2 ^ 64 = omega (arith, small) in
      let k = Trail-Keeps n s less old in
      let one : n + 1 ≡ suc n = omega arith in
      subst (λ j. Keeps extra j r q) one
        (Keeps-trans extra n 1 r s q k (next-After n s call (threw q capacity_exceeded) less k e).0)

module _ (extra : ℕ → ℕ) (r : TokenRegistry) (ok : IsConsistent extra r) (n : ℕ) (q : TokenRegistry)
    (small : sum max_channels extra + n + max_bindings + 1 < 2 ^ 64) (calls : Trail r n q) where
  -- Whatever calls follow on a registry that is valid but for `extra` users without a token, whether
  -- they return or throw, the registry stays valid but for users without a token: the free tokens and
  -- the free channels are on their stacks, each once, and no others; an exclusive channel in use has one
  -- user; the channels of the groups are in use, shared, and no two groups have the same; and the
  -- reference count of a channel is the number of its tokens and of its users without one. None of
  -- these users ever goes, and each call that finds no token left, and no other, adds one; there are
  -- fewer than 2 ^ 64 - 257 of them.
  pub Trail-IsConsistent :
      (extra' : ℕ → ℕ) × IsConsistent extra' q
      × ((c : ℕ) → extra c ≤ extra' c)
      × (sum max_channels extra' ≡ sum max_channels extra + n)
  Trail-IsConsistent =
      let k = Trail-Keeps extra r ok n q small calls in (k.extra', k.consistent, k.grows, k.total)

  -- After such calls, a channel to which two tokens resolve is in shared mode.
  two_tokens_share :
      (s t : PublishToken) (c : ℕ)
      → s ≢ t
      → resolve q s ≡ some c
      → resolve q t ≡ some c
      → q.channel_mode c ≡ shared
  two_tokens_share s t c ne es et = shared_if (q.channel_mode c) refl
    where
      shared_if : (m : ChannelMode) → q.channel_mode c ≡ m → m ≡ shared
      shared_if shared e = refl
      shared_if exclusive e = absurd (exclusive_alone q s t c Trail-IsConsistent.1 e es ne et)

-- What an acquire that found no token left has done: it has taken a free channel for a user without one.
acquire-starved :
    (extra : ℕ → ℕ) (r q : TokenRegistry)
    → IsConsistent extra r
    → acquire r ≡ threw q capacity_exceeded
    → (c : ℕ) × (c < max_channels)
      × (r.channel_ref_count c ≡ 0)
      × IsConsistent (one_more extra c) q
      × (q.channel_mode c ≡ exclusive)
acquire-starved extra r q ok e = elim (ℕ_discrete r.free_channel_count 0) [
  | yes z ↦ absurd (cc (acquire_without_channel r z))
  | no nz ↦ elim (has_room r ok.tokens) [
    | inr room ↦ absurd (cc ((acquire_lem r ok (omega arith) room).3))
    | inl full ↦
        let pos : 0 < r.free_channel_count = omega arith in
        let leak = acquire_leaks r ok pos full in
        let same : leak.0 ≡ q = cc leak.1 in
        (
          top_channel r,
          top_below r ok pos,
          top_unused r ok pos,
          subst (IsConsistent (one_more extra (top_channel r))) same leak.2,
          subst (λ s. s.channel_mode (top_channel r) ≡ exclusive) same (ground (arith, leak.6)),
        )
  ]
]

-- An exclusive channel that counts a user without a token has no other user.
module _ (extra : ℕ → ℕ) (p : TokenRegistry) (ok : IsConsistent extra p) (c : ℕ)
    (lt : c < max_channels) (lost : 0 < extra c) (alone : p.channel_mode c ≡ exclusive) where
  lost-used : p.channel_ref_count c ≡ 1
  lost-used = ok.channels.solo c lt (omega (arith, ok.counted c lt)) alone

  lost-unresolved : (t : PublishToken) → resolve p t ≢ some c
  lost-unresolved t e =
      let h = resolve-holds p t c e in
      omega (
        arith,
        count-pos p.next_token t (holds p.token_used p.token_to_channel c) h.0 h.1,
        ok.counted c lt,
        lost-used,
      )

  lost-not_free : (i : ℕ) → i < p.free_channel_count → p.free_channels i ≢ c
  lost-not_free i h e = ground (arith, ok.channels.stack.is_free i h, lost-used, e)

  lost-not_grouped : (g : ℕ) → g < max_groups → p.group_to_channel g ≢ c
  lost-not_grouped g gl e = ground (arith, ok.channels.groups.is_shared g gl, alone, e)

-- When `acquire` has found no token left, on a registry that is valid but for `extra` users without a
-- token, it has lost a channel for good: whatever calls follow, releases of all tokens among them, the
-- channel, which was free, counts one user, no token resolves to it, no group has it, and it is not on
-- the stack of free channels, as long as there are fewer than 2 ^ 64 - 257 users without a token.
pub channel_lost :
    (extra : ℕ → ℕ) (n : ℕ) (r q p : TokenRegistry)
    → sum max_channels extra + suc n + max_bindings + 1 < 2 ^ 64
    → IsConsistent extra r
    → acquire r ≡ threw q capacity_exceeded
    → Trail q n p
    → (c : ℕ) × (c < max_channels)
      × (r.channel_ref_count c ≡ 0)
      × (p.channel_ref_count c ≡ 1)
      × ((t : PublishToken) → resolve p t ≢ some c)
      × ((g : ℕ) → g < max_groups → p.group_to_channel g ≢ c)
      × ((i : ℕ) → i < p.free_channel_count → p.free_channels i ≢ c)
channel_lost extra n r q p small ok e after =
    let l = acquire-starved extra r q ok e in
    let counted = sum-one_more max_channels l.0 extra l.1 in
    let k = Trail-Keeps (one_more extra l.0) q l.3 n p (omega (arith, small, counted)) after in
    let one : 0 < one_more extra l.0 l.0 = ground arith in
    let lost : 0 < k.extra' l.0 = omega (arith, k.grows l.0, one) in
    let alone = k.stays l.0 l.1 one l.4 in
    (
      l.0,
      l.1,
      l.2,
      lost-used k.extra' p k.consistent l.0 l.1 lost alone,
      lost-unresolved k.extra' p k.consistent l.0 l.1 lost alone,
      lost-not_grouped k.extra' p k.consistent l.0 l.1 lost alone,
      lost-not_free k.extra' p k.consistent l.0 l.1 lost alone,
    )
