-- ===== src/Publisher/Registry/Refines/Calls.antt =====
-- Each call of TokenRegistry does what its book allows.
use my_server.Publisher.Registry.History.{has_channel}
use my_server.Publisher.Registry.Release.{release_refused, Released, release_lem}
use my_server.Publisher.Registry.Group.{
  acquire_group_lem, acquire_group_leaks, acquire_group_without_channel, acquire_group_out_of_range,
  GroupAcquired,
}
use my_server.Publisher.Registry.Book.{Releases, Joins, Call, Reply, Acquires, Allows}
use my_server.Publisher.Registry.Refines.{
  to_option, view, refs-users, perform, view_outcome, all_in_use, all_bound,
}
use my_server.Common.{
  none, ◌≢◌, tests, ltb, some, ◌∙◌, Bool-cases, ◌≡◌, dec_lt, Option-cases, ◌<◌, ℕ, inl, inr, refl,
  ap, arith, ℕ_discrete,
}
use my_server.Common.Outcome.{Outcome, done, threw, fault, ◌>>=◌}
use my_server.Publisher.Types.{ChannelMode, PublishToken}
use my_server.Publisher.Registry.{
  max_bindings, max_groups, to_index, max_channels, ChannelGroup, resolve, TokenRegistry, Error,
  capacity_exceeded,
}
use my_server.Publisher.Registry.Invariant.{nothing-Bounded, IsValid}
use my_server.Publisher.Registry.Allocate.{has_room}
use my_server.Publisher.Registry.Acquire.{
  Acquired, acquire_lem, acquire_without_channel, acquire_leaks,
}

-- The registry is valid after every result but that of a registry out of tokens.
abbrev pub Keeps : Outcome TokenRegistry Error Reply → Type 0
Keeps (done q reply) = IsValid q
Keeps (threw q capacity_exceeded) = Unit {0}
Keeps (threw q error) = IsValid q
Keeps fault = Unit {0}

abbrev pub Meets : TokenRegistry → Call → Outcome TokenRegistry Error Reply → Type 0
Meets r call o = Keeps o × Allows (view r) call (view_outcome o)

resolve_small : (r : TokenRegistry) (t : PublishToken) → resolve r t ≢ none → t < max_bindings
unfolding resolve
resolve_small r t h = ground arith

Acquired-Acquires :
    (r q : TokenRegistry) (t : PublishToken) (c : ℕ)
    → IsValid r
    → Acquired r q t c
    → Acquires (view r) (view q) t c
Acquired-Acquires r q t c ok a = record {
  bound = record {
    below = a.below;
    small = resolve_small q t (ground (arith, a.resolves t));
    was_unbound = a.unused;
    binds = a.resolves;
    sets_mode = λ d. ap (λ (k : ℕ → ChannelMode). k d) a.modes;
  };
  was_free = omega (arith, refs-users r c ok a.below, a.was_free);
  same_groups = λ g lt. ap (λ (k : ℕ → ℕ). to_option (k g)) a.groups;
}

acquire-Meets : (r : TokenRegistry) → IsValid r → Meets r Call.acquire (perform Call.acquire r)
unfolding perform
acquire-Meets r ok = elim (ℕ_discrete r.free_channel_count 0) [
  | yes z ↦ rw (acquire_without_channel r z, ◌>>=◌) (ok, (refl, all_in_use r ok z))
  | no nz ↦ elim (has_room r ok.tokens) [
    | inl full ↦
        let leak = acquire_leaks r ok (omega arith) full in
        rw (leak.1, ◌>>=◌) (tt, (all_bound r ok full, leak.5))
    | inr room ↦
        let a = acquire_lem r ok (omega arith) room in
        rw (a.3, ◌>>=◌) (a.4.valid, (a.2, Acquired-Acquires r a.0 a.1 a.2 ok a.4))
  ]
]

GroupAcquired-Joins :
    (r q : TokenRegistry) (g : ℕ) (t : PublishToken) (c : ℕ)
    → IsValid r
    → g < max_groups
    → GroupAcquired r g q t c
    → Joins (view r) (view q) g t c
GroupAcquired-Joins r q g t c ok gl a = record {
  in_range = gl;
  bound = record {
    below = a.below;
    small = resolve_small q t (ground (arith, a.resolves t));
    was_unbound = a.unused;
    binds = a.resolves;
    sets_mode = λ d. ap (λ (k : ℕ → ChannelMode). k d) a.modes;
  };
  joins = λ d e. ground (arith, a.joins);
  opens = λ e. omega (arith, refs-users r c ok a.below, a.opens (ground arith));
  sets_group = λ h lt. ap (λ (k : ℕ → ℕ). to_option (k h)) a.groups ∙ ground (arith, a.below);
}

acquire_group-Meets :
    (r : TokenRegistry) (group : ChannelGroup)
    → IsValid r
    → Meets r (Call.acquire_group group) (perform (Call.acquire_group group) r)
unfolding perform
acquire_group-Meets r group ok = elim (dec_lt (to_index group) max_groups) [
  | no out ↦ rw (acquire_group_out_of_range r group (omega arith), ◌>>=◌) (tt, omega arith)
  | yes gl ↦ elim (has_channel r (to_index group)) [
    | inl (closed, z) ↦
        rw (acquire_group_without_channel r group gl closed z, ◌>>=◌)
          (ok, (refl, all_in_use r ok z, ground arith))
    | inr ch ↦ elim (has_room r ok.tokens) [
      | inl full ↦
          let leak = acquire_group_leaks r group nothing-Bounded ok gl ch full in
          rw (leak.2, ◌>>=◌) (tt, (all_bound r ok full, leak.6))
      | inr room ↦
          let a = acquire_group_lem r group nothing-Bounded ok gl ch room in
          rw (a.3, ◌>>=◌)
            (a.4.valid, (a.2, GroupAcquired-Joins r a.0 (to_index group) a.1 a.2 ok gl a.4))
    ]
  ]
]

resolve_below :
    (r : TokenRegistry) (t : PublishToken) (c : ℕ)
    → IsValid r
    → resolve r t ≡ some c
    → c < max_channels
unfolding resolve
resolve_below r t c ok e = ground (arith, ok.tokens.bound t)

Released-Releases :
    (r q : TokenRegistry) (t : PublishToken) (c : ℕ)
    → IsValid r
    → c < max_channels
    → resolve r t ≡ some c
    → Released r t c q
    → Releases (view r) (view q) t c
Released-Releases r q t c ok lt e a = record {
  was_bound = e;
  unbinds = a.resolves;
  same_modes = a.modes;
  leaves_groups = λ h hl. ap to_option (a.groups h hl) ∙ ground (arith, refs-users r c ok lt);
}

release-Meets :
    (r : TokenRegistry) (t : PublishToken)
    → IsValid r
    → Meets r (Call.release t) (perform (Call.release t) r)
unfolding perform
release-Meets r t ok = elim (Option-cases (resolve r t)) [
  | inr (c, e) ↦
      let a = release_lem r t c ok e in
      rw (a.1, ◌>>=◌)
        (a.2.valid, (c, Released-Releases r a.0 t c ok (resolve_below r t c ok e) e a.2))
  | inl e ↦ elim (Bool-cases (ltb t r.next_token)) [
    | inl ever ↦
        rw (release_refused r t ok e, ever, ◌>>=◌)
          (ok, (refl, e, omega (tests, ok.tokens.capacity)))
    | inr never ↦ rw (release_refused r t ok e, never, ◌>>=◌) (ok, (refl, e))
  ]
]

-- In a valid registry every call has a result that the book allows, with the book of the registry
-- that it leaves. An answer binds or frees exactly the token that it names; a refusal of a release
-- tells a token without a channel, `no_free_channels` that every channel is in use and
-- `capacity_exceeded` that every token is bound, and keeps the tokens as they were; a call faults only for a group out of range. The
-- registry is valid after every result but `capacity_exceeded`.
pub perform-Meets : (r : TokenRegistry) (call : Call) → IsValid r → Meets r call (perform call r)
perform-Meets r Call.acquire ok = acquire-Meets r ok
perform-Meets r (Call.acquire_group group) ok = acquire_group-Meets r group ok
perform-Meets r (Call.release t) ok = release-Meets r t ok
