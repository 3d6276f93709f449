-- ===== src/Publisher/Registry/Retire.antt =====
-- TokenRegistry::release: the states after the token went back, with and without the last user's channel.
use my_server.Common.{
  ℕ, zero, suc, ◌+◌, ◌-◌, ◌<◌, ◌≤◌, ◌≡◌, refl, sym, ap, ◌∙◌, true, false, not, arith, ◌==◌,
  ℕ_discrete, if◌then◌else◌, update, count-differ,
}
use my_server.Publisher.Types.{PublishToken, max_groups}
use my_server.Publisher.FreeStack.{IsFreeStack-congr, IsFreeStack-push}
use my_server.Publisher.Registry.{TokenRegistry, max_channels, no_channel, reset_group}
use my_server.Publisher.Registry.Invariant.{one_more, holds, GroupsOk, IsConsistent}

-- The loop leaves the groups before its start alone.
reset_group-below :
    (k g c : ℕ) (groups : ℕ → ℕ) (h : ℕ) → h < g → reset_group k g c groups h ≡ groups h
unfolding reset_group
reset_group-below zero g c groups h lt = refl
reset_group-below (suc k) g c groups h lt =
    ground (arith, reset_group-below k (suc g) c groups h (omega arith))

-- It stops at the first group of the channel, which is the only one.
reset_group_lem :
    (k g c : ℕ) (groups : ℕ → ℕ) (h : ℕ)
    → ((i : ℕ) → g ≤ i → i < g + k → groups i ≡ c → groups h ≡ c → i ≡ h)
    → g ≤ h
    → h < g + k
    → reset_group k g c groups h ≡ (if groups h == c then no_channel else groups h)
unfolding reset_group
reset_group_lem zero g c groups h only le lt = absurd (omega arith)
reset_group_lem (suc k) g c groups h only le lt = elim (ℕ_discrete g h) [
  | yes e ↦ ground (arith, reset_group-below k (suc g) c groups h (omega arith))
  | no ne ↦ ground (
    arith,
    only g (omega arith) (omega arith),
    reset_group_lem k (suc g) c groups h (λ i l l' e e'. only i (omega arith) (omega arith) e e')
        (omega arith) (omega arith),
  )
]

-- The state after `free_token`.
abbrev pub freed : TokenRegistry → PublishToken → TokenRegistry
freed r t = record r {
  token_used = update r.token_used t false;
  free_tokens = update r.free_tokens r.free_token_count t;
  free_token_count = r.free_token_count + 1;
}

-- Its channel counts one user who has no token any more.
pub freed-IsConsistent :
    {extra : ℕ → ℕ} (r : TokenRegistry) (t : PublishToken)
    → IsConsistent extra r
    → t < r.next_token
    → r.token_used t ≡ true
    → IsConsistent (one_more extra (r.token_to_channel t)) (freed r t)
freed-IsConsistent r t ok lt used = record {
  tokens = record {
    capacity = ok.tokens.capacity;
    stack =
        IsFreeStack-congr _ _ _ _ _ (λ s h. ground arith)
          (IsFreeStack-push _ _ _ _ t ok.tokens.stack lt (ap not used));
    bound = λ s h u. ground (arith, ok.tokens.bound s);
  };
  channels = record {
    stack = ok.channels.stack;
    solo = ok.channels.solo;
    groups = ok.channels.groups;
  };
  counted = λ d h.
      let p = holds r.token_used r.token_to_channel d in
      let q = holds (update r.token_used t false) r.token_to_channel d in
      let differ = count-differ r.next_token t p q (λ s ne. ground arith) lt in
      ground (arith, ok.counted d h, differ);
}

module _ (r : TokenRegistry) (c : ℕ) where
  -- Another user stays.
  abbrev pub dropped : TokenRegistry
  dropped = record r {
    channel_ref_count = update r.channel_ref_count c (r.channel_ref_count c - 1);
  }

  -- The last user leaves.
  abbrev pub retired : TokenRegistry
  retired = record dropped {
    free_channels = update r.free_channels r.free_channel_count c;
    free_channel_count = r.free_channel_count + 1;
    group_to_channel = reset_group max_groups 0 c r.group_to_channel;
  }

  module _ (ok : GroupsOk r.channel_ref_count r.channel_mode r.group_to_channel)
      (lt : c < max_channels) where
    pub reset :
        (h : ℕ)
        → h < max_groups
        → reset_group max_groups 0 c r.group_to_channel h
          ≡ (if r.group_to_channel h == c then no_channel else r.group_to_channel h)
    reset h hl =
        reset_group_lem max_groups 0 c r.group_to_channel h
          (λ i l l' e e'. ok.distinct i h (omega arith) hl (omega arith) (e ∙ sym e')) (omega arith)
          (omega arith)

    retired-GroupsOk :
        GroupsOk retired.channel_ref_count retired.channel_mode retired.group_to_channel
    retired-GroupsOk = record {
      live = λ h hl ne. ground (arith, reset h hl, ok.live h hl);
      is_shared = λ h hl ne. ground (arith, reset h hl, ok.is_shared h hl);
      distinct = λ h k hl kl ne e. ground (arith, reset h hl, reset k kl, ok.distinct h k hl kl);
    }

module _ {extra : ℕ → ℕ} (r : TokenRegistry) (c : ℕ) (ok : IsConsistent (one_more extra c) r)
    (lt : c < max_channels) where
  pub dropped-IsConsistent : 1 < r.channel_ref_count c → IsConsistent extra (dropped r c)
  dropped-IsConsistent more = record {
    tokens = record {
      capacity = ok.tokens.capacity;
      stack = ok.tokens.stack;
      bound = ok.tokens.bound;
    };
    channels = record {
      stack = IsFreeStack-congr _ _ _ _ _ (λ d h. ground arith) ok.channels.stack;
      solo = λ d h used e. ground (arith, ok.channels.solo d h);
      groups = record {
        live = λ h gl ne. ground (arith, ok.channels.groups.live h gl ne);
        is_shared = ok.channels.groups.is_shared;
        distinct = ok.channels.groups.distinct;
      };
    };
    counted = λ d h. ground (arith, ok.counted d h);
  }

  pub retired-IsConsistent : r.channel_ref_count c ≡ 1 → IsConsistent extra (retired r c)
  retired-IsConsistent one = record {
    tokens = record {
      capacity = ok.tokens.capacity;
      stack = ok.tokens.stack;
      bound = ok.tokens.bound;
    };
    channels = record {
      stack =
          IsFreeStack-congr _ _ _ _ _ (λ d h. ground arith)
            (IsFreeStack-push _ _ _ _ c ok.channels.stack lt (ground arith));
      solo = λ d h used e. ground (arith, ok.channels.solo d h);
      groups = retired-GroupsOk r c ok.channels.groups lt;
    };
    counted = λ d h. ground (arith, ok.counted d h);
  }
