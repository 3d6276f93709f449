-- ===== src/Publisher/Registry/Release.antt =====
-- TokenRegistry::release: the token goes back, and with its last token the channel.
use my_server.Publisher.Registry.Retire.{
  dropped-IsConsistent, freed-IsConsistent, reset, freed, retired-IsConsistent,
}
use my_server.Common.{
  refl, ltb, lt→ltb, bit, ◌&&◌, leb, some, none, ℕ, ◌+◌, ◌-◌, ◌<◌, ◌≡◌, ap, true, false, not, arith,
  ◌==◌, ℕ_discrete, if◌then◌else◌, update,
}
use my_server.Publisher.Types.{PublishToken, max_groups}
use my_server.Publisher.FreeStack.{IsFreeStack-lt}
use my_server.Publisher.Registry.{
  give_back, invalid_token, already_free, threw, ◌>>=◌, free_token, done, drop_user, max_bindings,
  resolve, release, TokenRegistry, max_channels, no_channel, reset_group,
}
use my_server.Publisher.Registry.Invariant.{one_more, nothing, IsConsistent}

-- What `release` has done with the token `t` of channel `c`.
pub record ReleasedWith (extra : ℕ → ℕ) (r : TokenRegistry) (t : PublishToken) (c : ℕ)
    (q : TokenRegistry) : Type 0 where
  pub valid : IsConsistent extra q
  pub resolves : (s : PublishToken) → resolve q s ≡ (if s == t then none else resolve r s)
  pub refs : q.channel_ref_count ≡ update r.channel_ref_count c (r.channel_ref_count c - 1)
  pub groups :
      (h : ℕ)
      → h < max_groups
      → q.group_to_channel h ≡ (
          if r.channel_ref_count c == 1 && r.group_to_channel h == c
          then no_channel
          else r.group_to_channel h)
  pub modes : q.channel_mode ≡ r.channel_mode
  pub token_left : 0 < q.free_token_count
  pub free : q.free_channel_count ≡ r.free_channel_count + bit (r.channel_ref_count c == 1)

abbrev pub Released : TokenRegistry → PublishToken → ℕ → TokenRegistry → Type 0
Released = ReleasedWith nothing

-- A token that is handed out, with what the tests of `release` say of it.
record Live (r : TokenRegistry) (t : PublishToken) (c : ℕ) : Type 0 where
  next : t < r.next_token
  used : r.token_used t ≡ true
  channel : r.token_to_channel t ≡ c

resolve-Live : (r : TokenRegistry) (t : PublishToken) (c : ℕ) → resolve r t ≡ some c → Live r t c
unfolding resolve
resolve-Live r t c e = ground arith

module _ {extra : ℕ → ℕ} (r : TokenRegistry) (t : PublishToken) (ok : IsConsistent extra r) (c : ℕ)
    (h : Live r t c) where
  below : r.token_to_channel t < max_channels
  below = ok.tokens.bound t h.next h.used

  freed-ok : IsConsistent (one_more extra (r.token_to_channel t)) (freed r t)
  freed-ok = freed-IsConsistent r t ok h.next h.used

  room : r.free_token_count < max_bindings
  room =
      omega
        (arith, IsFreeStack-lt _ _ _ _ t ok.tokens.stack h.next (ap not h.used), ok.tokens.capacity)

  positive : 0 < r.channel_ref_count (r.token_to_channel t)
  positive = ground (arith, freed-ok.counted (r.token_to_channel t) below)

  -- No test of `release` fails.
  release-drops :
      (q : TokenRegistry)
      → drop_user (r.token_to_channel t) r ≡ done q tt
      → release t r ≡ free_token t q
  unfolding release give_back
  release-drops q e =
      rw (lt→ltb t r.next_token h.next, lt→ltb t max_bindings small, h.used, not_full)
        (rw (e, ◌>>=◌))
    where
      small : t < max_bindings
      small = omega (arith, h.next, ok.tokens.capacity)

      not_full : leb max_bindings r.free_token_count ≡ false
      not_full = ground (arith, room)

  drop_user-more :
      1 < r.channel_ref_count (r.token_to_channel t)
      → drop_user (r.token_to_channel t) r
        ≡ done
            (record r {
              channel_ref_count =
                  update r.channel_ref_count
                    (r.token_to_channel t)
                    (r.channel_ref_count (r.token_to_channel t) - 1);
            })
            tt
  unfolding drop_user
  drop_user-more more = rw (
    lt→ltb (r.token_to_channel t) max_channels below,
    lt→ltb 0 (r.channel_ref_count (r.token_to_channel t)) positive,
    left,
  )
    where
      left : (r.channel_ref_count (r.token_to_channel t) - 1 == 0) ≡ false
      left = ground (arith, more)

  drop_user-last :
      r.channel_ref_count (r.token_to_channel t) ≡ 1
      → drop_user (r.token_to_channel t) r
        ≡ done
            (record r {
              channel_ref_count =
                  update r.channel_ref_count
                    (r.token_to_channel t)
                    (r.channel_ref_count (r.token_to_channel t) - 1);
              free_channels = update r.free_channels r.free_channel_count (r.token_to_channel t);
              free_channel_count = r.free_channel_count + 1;
              group_to_channel = reset_group max_groups 0 (r.token_to_channel t) r.group_to_channel;
            })
            tt
  unfolding drop_user
  drop_user-last one =
      rw
        (
          lt→ltb (r.token_to_channel t) max_channels below,
          lt→ltb 0 (r.channel_ref_count (r.token_to_channel t)) positive,
          left,
        )
        (rw (lt→ltb r.free_channel_count max_channels space, ◌>>=◌))
    where
      left : (r.channel_ref_count (r.token_to_channel t) - 1 == 0) ≡ true
      left = ground (arith, one)

      space : r.free_channel_count < max_channels
      space =
          IsFreeStack-lt _ _ _ _ (r.token_to_channel t) ok.channels.stack below
            (ground (arith, one))

-- In a valid registry `release` of a token that resolves returns, and leaves a valid registry: the
-- token resolves no more and the others as before, its channel counts one user less, and with its
-- last user the channel is free and no group's.
pub release_lem :
    {extra : ℕ → ℕ} (r : TokenRegistry) (t : PublishToken) (c : ℕ)
    → IsConsistent extra r
    → resolve r t ≡ some c
    → (q : TokenRegistry) × (release t r ≡ done q tt) × ReleasedWith extra r t c q
unfolding free_token resolve
release_lem r t c ok e = elim (ℕ_discrete (r.channel_ref_count (r.token_to_channel t)) 1) [
  | yes one ↦ (
    _,
    release-drops r t ok c h _ (drop_user-last r t ok c h one),
    record {
      valid =
          retired-IsConsistent (freed r t) (r.token_to_channel t) (freed-ok r t ok c h)
            (below r t ok c h) one;
      resolves = λ s. ground arith;
      refs = rw h.channel;
      groups = λ g gl. ground (
        arith,
        h.channel,
        one,
        reset (freed r t) (r.token_to_channel t) (freed-ok r t ok c h).channels.groups
            (below r t ok c h) g gl,
      );
      modes = refl;
      token_left = omega arith;
      free = ground (arith, h.channel, one);
    },
  )
  | no more ↦ (
    _,
    release-drops r t ok c h _ (drop_user-more r t ok c h (omega (arith, positive r t ok c h))),
    record {
      valid =
          dropped-IsConsistent (freed r t) (r.token_to_channel t) (freed-ok r t ok c h)
            (below r t ok c h) (omega (arith, positive r t ok c h));
      resolves = λ s. ground arith;
      refs = rw h.channel;
      groups = λ g gl. ground (arith, h.channel);
      modes = refl;
      token_left = omega arith;
      free = ground (arith, h.channel);
    },
  )
]
  where
    h : Live r t c
    h = resolve-Live r t c e

-- In a valid registry `release` of a token that does not resolve throws and changes nothing: the
-- token is called free if it was ever handed out, and invalid if not.
pub release_refused :
    {extra : ℕ → ℕ} (r : TokenRegistry) (t : PublishToken)
    → IsConsistent extra r
    → resolve r t ≡ none
    → release t r ≡ threw r (if ltb t r.next_token then already_free else invalid_token)
unfolding release resolve
release_refused r t ok e = ground (arith, ok.tokens.capacity)
