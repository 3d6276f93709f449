-- ===== src/Publisher/Registry/Leaks/Calls.antt =====
-- What a call of TokenRegistry (token_registry.hpp) leaves, also when it finds no token left.
use my_server.Publisher.Registry.History.{has_channel}
use my_server.Publisher.Registry.Release.{release_lem, release_refused}
use Registry.{fault, capacity_exceeded}
use my_server.Publisher.Registry.Allocate.{has_room}
use my_server.Publisher.Registry.Group.{
  acquire_group_lem, acquire_group_leaks, acquire_group_without_channel, acquire_group_out_of_range,
  GroupAcquiredWith,
}
use my_server.Publisher.Registry.Invariant.{Bounded}
use my_server.Publisher.Registry.Acquire.{acquire_lem, acquire_leaks, acquire_without_channel}
use my_server.Publisher.Registry.Claim.{top_below, top_channel}
use my_server.Common.Outcome.{◌>>◌, fault, ◌>>=◌, threw, done}
use my_server.Publisher.Registry.{
  no_channel, max_groups, to_index, resolve, shared, done, exclusive, ChannelGroup, Error,
  max_channels, PublishToken, Outcome, TokenRegistry,
}
use my_server.Publisher.Registry
use my_server.Publisher.Registry.Book.{Call, Reply}
use my_server.Publisher.Registry.Leaks.{one_more, IsConsistent, Keeps, sum-one_more}
use my_server.Publisher.Registry.Refines.{perform}
use my_server.Common.{
  ltb, Bool-cases, inr, dec_lt, inl, ◌⊎◌, Option-cases, ℕ_discrete, update, ℕ, ◌<◌, ◌≡◌, refl,
  arith,
}

-- What each result of a call leaves.
abbrev pub After : (ℕ → ℕ) → TokenRegistry → Outcome TokenRegistry Error Reply → Type 0
After extra r (done q reply) = Keeps extra 0 r q
After extra r (threw q capacity_exceeded) =
    Keeps extra 1 r q × ((s : PublishToken) → resolve q s ≡ resolve r s)
After extra r (threw q error) = q ≡ r
After extra r fault = Unit {0}

-- One user more without a token, on a channel that is shared or was free.
starves :
    (extra : ℕ → ℕ) (r q : TokenRegistry) (c : ℕ)
    → IsConsistent extra r
    → IsConsistent (one_more extra c) q
    → c < max_channels
    → ((d : ℕ)
        → d < max_channels
        → 0 < extra d
        → r.channel_mode d ≡ exclusive
        → q.channel_mode d ≡ exclusive)
    → Keeps extra 1 r q
starves extra r q c ok leaked lt stays = record {
  extra' = one_more extra c;
  consistent = leaked;
  grows = λ d. omega arith;
  total = omega (arith, sum-one_more max_channels c extra lt);
  stays = stays;
}

-- A channel with a user is not free.
used :
    (extra : ℕ → ℕ) (r : TokenRegistry) (d : ℕ)
    → IsConsistent extra r
    → d < max_channels
    → 0 < extra d
    → 0 < r.channel_ref_count d
used extra r d ok lt pos = omega (arith, ok.counted d lt)

module _ (extra : ℕ → ℕ) (r : TokenRegistry) (ok : IsConsistent extra r) where
  acquire-After : After extra r (perform Call.acquire r)
  unfolding perform
  acquire-After = elim (ℕ_discrete r.free_channel_count 0) [
    | yes z ↦ rw (acquire_without_channel r z, ◌>>=◌) refl
    | no nz ↦ elim (has_room r ok.tokens) [
      | inl full ↦
          let leak = acquire_leaks r ok (omega arith) full in
          rw (leak.1, ◌>>=◌)
            (
              starves extra r leak.0 (top_channel r) ok leak.2 (top_below r ok (omega arith))
                  (λ d lt pos e. ground (arith, leak.6, e)),
              leak.5,
            )
      | inr room ↦
          let a = acquire_lem r ok (omega arith) room in
          rw (a.3, ◌>>=◌)
            (record {
              extra' = extra;
              consistent = a.4.valid;
              grows = λ c. omega arith;
              total = omega arith;
              stays = λ d lt pos e. ground (arith, a.4.modes, e);
            })
    ]
  ]

  -- A group's channel is not one in exclusive mode that has a user.
  joins_other :
      (q : TokenRegistry) (c d : ℕ)
      → q.channel_mode ≡ update r.channel_mode c shared
      → (r.channel_mode c ≡ shared) ⊎ (r.channel_ref_count c ≡ 0)
      → d < max_channels
      → 0 < extra d
      → r.channel_mode d ≡ exclusive
      → q.channel_mode d ≡ exclusive
  joins_other q c d modes other lt pos e = elim (ℕ_discrete c d) [
    | yes same ↦ absurd (ground (arith, same, other, e, used extra r d ok lt pos))
    | no ne ↦ ground (arith, modes, e)
  ]

  was_shared :
      (q : TokenRegistry) (g : ℕ) (t : PublishToken) (c : ℕ)
      → g < max_groups
      → GroupAcquiredWith extra r g q t c
      → (r.channel_mode c ≡ shared) ⊎ (r.channel_ref_count c ≡ 0)
  was_shared q g t c gl a = elim (ℕ_discrete (r.group_to_channel g) no_channel) [
    | yes closed ↦ inr (a.opens closed)
    | no opened ↦ inl (rw (a.joins opened) (ok.channels.groups.is_shared g gl opened))
  ]

  acquire_group-After :
      (group : ChannelGroup) → Bounded extra → After extra r (perform (Call.acquire_group group) r)
  unfolding perform
  acquire_group-After group small = elim (dec_lt (to_index group) max_groups) [
    | no out ↦ rw (acquire_group_out_of_range r group (omega arith), ◌>>=◌) tt
    | yes gl ↦ elim (has_channel r (to_index group)) [
      | inl (closed, z) ↦ rw (acquire_group_without_channel r group gl closed z, ◌>>=◌) refl
      | inr ch ↦ elim (has_room r ok.tokens) [
        | inl full ↦
            let leak = acquire_group_leaks r group small ok gl ch full in
            rw (leak.2, ◌>>=◌)
              (
                starves extra r leak.0 leak.1 ok leak.3 leak.5
                    (λ d. joins_other leak.0 leak.1 d leak.7 leak.8),
                leak.6,
              )
        | inr room ↦
            let a = acquire_group_lem r group small ok gl ch room in
            rw (a.3, ◌>>=◌)
              (record {
                extra' = extra;
                consistent = a.4.valid;
                grows = λ c. omega arith;
                total = omega arith;
                stays = λ d.
                    joins_other a.0 a.2 d a.4.modes
                      (was_shared a.0 (to_index group) a.1 a.2 gl a.4);
              })
      ]
    ]
  ]

  release-After : (t : PublishToken) → After extra r (perform (Call.release t) r)
  unfolding perform
  release-After t = elim (Option-cases (resolve r t)) [
    | inl z ↦ elim (Bool-cases (ltb t r.next_token)) [
      | inl ever ↦ rw (release_refused r t ok z, ever, ◌>>=◌, ◌>>◌) refl
      | inr never ↦ rw (release_refused r t ok z, never, ◌>>=◌, ◌>>◌) refl
    ]
    | inr (c, e) ↦
        let a = release_lem r t c ok e in
        rw (a.1, ◌>>=◌, ◌>>◌)
          (record {
            extra' = extra;
            consistent = a.2.valid;
            grows = λ d. omega arith;
            total = omega arith;
            stays = λ d lt pos e. ground (arith, a.2.modes, e);
          })
  ]

pub perform-After :
    (extra : ℕ → ℕ) (r : TokenRegistry) (call : Call)
    → IsConsistent extra r
    → Bounded extra
    → After extra r (perform call r)
perform-After extra r Call.acquire ok small = acquire-After extra r ok
perform-After extra r (Call.acquire_group group) ok small =
    acquire_group-After extra r ok group small
perform-After extra r (Call.release t) ok small = release-After extra r ok t
