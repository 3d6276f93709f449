-- ===== src/Publisher/Registry/Allocate.antt =====
-- TokenRegistry::allocateToken: the token that a channel's pending user gets.
use my_server.Common.{
  ℕ, suc, ◌+◌, ◌-◌, ◌%◌, ◌^◌, ◌<◌, ◌≤◌, ◌≡◌, ◌≢◌, ◌⊎◌, inl, inr, refl, sym, Bool, true, false, some,
  none, arith, ◌==◌, dec_lt, if◌then◌else◌, update, count, count-congr, count-differ, count-suc,
  bit,
}
use my_server.Common.Outcome.{done, threw}
use my_server.Publisher.Types.{PublishToken}
use my_server.Publisher.FreeStack.{
  IsFreeStack-congr, IsFreeStack-pop, IsFreeStack-grow, IsFreeStack-le,
}
use my_server.Publisher.Registry.{
  TokenRegistry, capacity_exceeded, max_bindings, max_channels, allocate_token, resolve,
}
use my_server.Publisher.Registry.Invariant.{holds, TokensOk, IsConsistent, one_more}

-- The two arrays after `bind_token`.
module _ (used : ℕ → Bool) (channel : ℕ → ℕ) (t c d : ℕ) where
  abbrev bound_holds : ℕ → Bool
  bound_holds = holds (update used t true) (update channel t c) d

  bound_holds_ne : (s : ℕ) → s ≢ t → holds used channel d s ≡ bound_holds s
  bound_holds_ne s ne = ground arith

  -- A token that was not in use adds its holder.
  count-bound_holds :
      (n : ℕ)
      → t < n
      → used t ≡ false
      → count n bound_holds ≡ count n (holds used channel d) + bit (d == c)
  count-bound_holds n lt e =
      let differ = count-differ n t (holds used channel d) bound_holds bound_holds_ne lt in
      ground (arith, differ)

  -- So does the token just past the last.
  count-fresh_holds : count (suc t) bound_holds ≡ count t (holds used channel d) + bit (d == c)
  count-fresh_holds =
      let same =
        count-congr t bound_holds (holds used channel d)
          (λ s lt. sym (bound_holds_ne s (λ e. omega arith))) in
      ground (arith, same, count-suc t bound_holds)

-- The state with token `t` bound to `c`, the counters given.
abbrev pub bound_to : TokenRegistry → PublishToken → ℕ → ℕ → ℕ → TokenRegistry
bound_to r t c next free = record r {
  token_to_channel = update r.token_to_channel t c;
  token_used = update r.token_used t true;
  next_token = next;
  free_token_count = free;
}

module _ {extra : ℕ → ℕ} (r : TokenRegistry) (c : ℕ) (ok : IsConsistent (one_more extra c) r)
    (lt : c < max_channels) where
  -- A token is taken from the free stack.
  recycled-IsConsistent :
      0 < r.free_token_count
      → let t = r.free_tokens (r.free_token_count - 1) in
        IsConsistent extra (bound_to r t c r.next_token (r.free_token_count - 1))
  recycled-IsConsistent pos = record {
    tokens = record {
      capacity = ok.tokens.capacity;
      stack =
          IsFreeStack-congr _ _ _ _ _ (λ s h. ground arith)
            (IsFreeStack-pop _ _ _ _ ok.tokens.stack pos);
      bound = λ s h u. ground (arith, ok.tokens.bound s);
    };
    channels = record {
      stack = ok.channels.stack;
      solo = ok.channels.solo;
      groups = ok.channels.groups;
    };
    counted = λ d h. omega (
      arith,
      ok.counted d h,
      count-bound_holds r.token_used r.token_to_channel t c d r.next_token
          (ok.tokens.stack.below (r.free_token_count - 1) (omega arith)) unused,
    );
  }
    where
      t : ℕ
      t = r.free_tokens (r.free_token_count - 1)

      unused : r.token_used t ≡ false
      unused = ground (arith, ok.tokens.stack.is_free (r.free_token_count - 1) (omega arith))

  -- A token is taken for the first time.
  fresh-IsConsistent :
      r.next_token < max_bindings
      → IsConsistent extra (bound_to r r.next_token c (suc r.next_token) r.free_token_count)
  fresh-IsConsistent room = record {
    tokens = record {
      capacity = room;
      stack =
          IsFreeStack-grow _ _ _ _
            (IsFreeStack-congr _ _ _ _ _ (λ s h. ground arith) ok.tokens.stack) (ground arith);
      bound = λ s h u. ground (arith, ok.tokens.bound s);
    };
    channels = record {
      stack = ok.channels.stack;
      solo = ok.channels.solo;
      groups = ok.channels.groups;
    };
    counted = λ d h.
        omega (
          arith,
          ok.counted d h,
          count-fresh_holds r.token_used r.token_to_channel r.next_token c d,
        );
  }

-- What `allocateToken` has done with channel `c` when it returns the token `t` in the state `q`.
pub record Allocated (extra : ℕ → ℕ) (r : TokenRegistry) (c : ℕ) (q : TokenRegistry)
    (t : PublishToken) : Type 0 where
  pub valid : IsConsistent extra q
  pub unused : resolve r t ≡ none
  pub resolves : (s : PublishToken) → resolve q s ≡ (if s == t then some c else resolve r s)
  pub same_refs : q.channel_ref_count ≡ r.channel_ref_count
  pub same_modes : q.channel_mode ≡ r.channel_mode
  pub same_groups : q.group_to_channel ≡ r.group_to_channel
  pub same_free : q.free_channel_count ≡ r.free_channel_count

-- All 256 tokens are handed out.
abbrev pub IsExhausted : TokenRegistry → Type 0
IsExhausted r = (r.free_token_count ≡ 0) × (r.next_token ≡ max_bindings)

-- A free token, or one never handed out.
abbrev pub HasToken : TokenRegistry → Type 0
HasToken r = (0 < r.free_token_count) ⊎ ((r.free_token_count ≡ 0) × (r.next_token < max_bindings))

pub has_room : (r : TokenRegistry) → TokensOk r → IsExhausted r ⊎ HasToken r
has_room r ok = elim (dec_lt 0 r.free_token_count) [
  | yes h ↦ inr (inl h)
  | no h ↦ elim (dec_lt r.next_token max_bindings) [
    | yes k ↦ inr (inr (omega arith, k))
    | no k ↦ inl (omega (arith, ok.capacity), omega (arith, ok.capacity))
  ]
]

module _ {extra : ℕ → ℕ} (r : TokenRegistry) (c : ℕ) (ok : IsConsistent (one_more extra c) r)
    (lt : c < max_channels) where
  allocate_recycled :
      0 < r.free_token_count
      → (q : TokenRegistry) × (t : PublishToken) × (allocate_token c r ≡ done q t)
        × Allocated extra r c q t
  unfolding allocate_token resolve
  allocate_recycled pos = (
    bound_to r t c r.next_token (r.free_token_count - 1),
    t,
    ground (arith, below, small, ok.tokens.capacity),
    record {
      valid = recycled-IsConsistent r c ok lt pos;
      unused = ground (arith, unused);
      resolves = λ s. ground (arith, below, ok.tokens.capacity);
      same_refs = refl;
      same_modes = refl;
      same_groups = refl;
      same_free = refl;
    },
  )
    where
      t : ℕ
      t = r.free_tokens (r.free_token_count - 1)

      below : t < r.next_token
      below = ok.tokens.stack.below (r.free_token_count - 1) (omega arith)

      small : r.free_token_count ≤ r.next_token
      small = IsFreeStack-le _ _ _ _ ok.tokens.stack

      unused : r.token_used t ≡ false
      unused = ground (arith, ok.tokens.stack.is_free (r.free_token_count - 1) (omega arith))

  allocate_fresh :
      r.free_token_count ≡ 0
      → r.next_token < max_bindings
      → (q : TokenRegistry) × (t : PublishToken) × (allocate_token c r ≡ done q t)
        × Allocated extra r c q t
  unfolding allocate_token resolve
  allocate_fresh none_free room = (
    bound_to r r.next_token c (suc r.next_token) r.free_token_count,
    r.next_token,
    ground (arith, wrap),
    record {
      valid = fresh-IsConsistent r c ok lt room;
      unused = ground arith;
      resolves = λ s. ground arith;
      same_refs = refl;
      same_modes = refl;
      same_groups = refl;
      same_free = refl;
    },
  )
    where
      wrap : (r.next_token + 1) % 2 ^ 32 ≡ suc r.next_token
      wrap = omega arith

  -- As long as a token is left, the pending user of `c` gets one.
  pub allocate_token_lem :
      HasToken r
      → (q : TokenRegistry) × (t : PublishToken) × (allocate_token c r ≡ done q t)
        × Allocated extra r c q t
  allocate_token_lem (inl pos) = allocate_recycled pos
  allocate_token_lem (inr (e, room)) = allocate_fresh e room

pub allocate_token_exhausted :
    (r : TokenRegistry) (c : ℕ) → IsExhausted r → allocate_token c r ≡ threw r capacity_exceeded
unfolding allocate_token
allocate_token_exhausted r c (e, f) = ground arith
