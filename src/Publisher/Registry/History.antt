-- ===== src/Publisher/Registry/History.antt =====
-- TokenRegistry over the calls of its clients: a call that returns, taken apart, and the registries
-- that calls can lead to.
use my_server.Common.{
  ◌≢◌, dec_lt, ◌⊎◌, ℕ, ◌≡◌, ◌⊎◌, inl, inr, some, arith, ℕ_discrete, Option-cases,
}
use mathlib.Core.Path.{subst₂}
use my_server.Common.Outcome.{threw, Outcome, done}
use my_server.Publisher.Types.{ChannelGroup, PublishToken, max_groups, to_index}
use my_server.Publisher.Registry.{
  capacity_exceeded, TokenRegistry, Error, no_channel, new, acquire, acquire_group, release,
  resolve,
}
use my_server.Publisher.Registry.Invariant.{
  IsValid, IsConsistent, Bounded, nothing-Bounded, new-IsValid,
}
use my_server.Publisher.Registry.Allocate.{has_room}
use my_server.Publisher.Registry.Acquire.{
  AcquiredWith, acquire_lem, acquire_without_channel, acquire_leaks,
}
use my_server.Publisher.Registry.Group.{
  GroupAcquiredWith, acquire_group_out_of_range, HasChannel, acquire_group_lem,
  acquire_group_without_channel, acquire_group_leaks,
}
use my_server.Publisher.Registry.Release.{ReleasedWith, release_lem, release_refused}

-- A call has one result.
same_result :
    {A : Type 0} (P : TokenRegistry → A → Type 0) {m : Outcome TokenRegistry Error A}
    {q p : TokenRegistry} {a b : A}
    → m ≡ done q a
    → m ≡ done p b
    → P q a
    → P p b
same_result {A} P {q = q} {p = p} {a = a} {b = b} e f = subst₂ P same_state same_value
  where
    same_state : q ≡ p
    same_state = cc

    same_value : a ≡ b
    same_value = cc

-- An `acquire` that returns has done what `Acquired` says.
pub acquire-done :
    {extra : ℕ → ℕ} (r q : TokenRegistry) (t : PublishToken)
    → IsConsistent extra r
    → acquire r ≡ done q t
    → (c : ℕ) × AcquiredWith extra r q t c
acquire-done {extra} r q t ok e = elim (ℕ_discrete r.free_channel_count 0) [
  | yes z ↦ absurd (cc (acquire_without_channel r z))
  | no nz ↦ elim (has_room r ok.tokens) [
    | inl full ↦ absurd (cc ((acquire_leaks r ok (omega arith) full).1))
    | inr room ↦
        let a = acquire_lem r ok (omega arith) room in
        (a.2, same_result (λ p s. AcquiredWith extra r p s a.2) a.3 e a.4)
  ]
]

pub has_channel :
    (r : TokenRegistry) (g : ℕ)
    → ((r.group_to_channel g ≡ no_channel) × (r.free_channel_count ≡ 0)) ⊎ HasChannel r g
has_channel r g = elim (ℕ_discrete (r.group_to_channel g) no_channel) [
  | no opened ↦ inr (inl opened)
  | yes closed ↦ elim (ℕ_discrete r.free_channel_count 0) [
    | yes z ↦ inl (closed, z)
    | no nz ↦ inr (inr (closed, omega arith))
  ]
]

-- So has an `acquire(group)` that returns.
pub acquire_group-done :
    {extra : ℕ → ℕ} (r q : TokenRegistry) (group : ChannelGroup) (t : PublishToken)
    → Bounded extra
    → IsConsistent extra r
    → acquire_group group r ≡ done q t
    → (c : ℕ) × GroupAcquiredWith extra r (to_index group) q t c
acquire_group-done {extra} r q group t small ok e = elim (dec_lt (to_index group) max_groups) [
  | no out ↦ absurd (cc (acquire_group_out_of_range r group (omega arith)))
  | yes gl ↦ elim (has_channel r (to_index group)) [
    | inl (closed, z) ↦ absurd (cc (acquire_group_without_channel r group gl closed z))
    | inr ch ↦ elim (has_room r ok.tokens) [
      | inl full ↦ absurd (cc ((acquire_group_leaks r group small ok gl ch full).2))
      | inr room ↦
          let a = acquire_group_lem r group small ok gl ch room in
          (a.2, same_result (λ p s. GroupAcquiredWith extra r (to_index group) p s a.2) a.3 e a.4)
    ]
  ]
]

-- So has a `release` that returns; it was given a token that is handed out.
pub release-done :
    {extra : ℕ → ℕ} (r q : TokenRegistry) (t : PublishToken)
    → IsConsistent extra r
    → release t r ≡ done q tt
    → (c : ℕ) × (resolve r t ≡ some c) × ReleasedWith extra r t c q
release-done {extra} r q t ok e = elim (Option-cases (resolve r t)) [
  | inl z ↦ absurd (cc (release_refused r t ok z))
  | inr (c, f) ↦
      let a = release_lem r t c ok f in
      (c, f, same_result (λ p _. ReleasedWith extra r t c p) a.1 e a.2)
]

-- An `acquire` that throws, but for one that finds no token left, has changed nothing.
pub acquire-threw :
    {extra : ℕ → ℕ} (r q : TokenRegistry) (x : Error)
    → IsConsistent extra r
    → acquire r ≡ threw q x
    → x ≢ capacity_exceeded
    → q ≡ r
acquire-threw r q x ok e ne = elim (ℕ_discrete r.free_channel_count 0) [
  | yes z ↦ cc (acquire_without_channel r z)
  | no nz ↦ elim (has_room r ok.tokens) [
    | inl full ↦ absurd (ne (cc ((acquire_leaks r ok (omega arith) full).1)))
    | inr room ↦ absurd (cc ((acquire_lem r ok (omega arith) room).3))
  ]
]

-- Nor has an `acquire(group)`.
pub acquire_group-threw :
    {extra : ℕ → ℕ} (r q : TokenRegistry) (group : ChannelGroup) (x : Error)
    → Bounded extra
    → IsConsistent extra r
    → acquire_group group r ≡ threw q x
    → x ≢ capacity_exceeded
    → q ≡ r
acquire_group-threw r q group x small ok e ne = elim (dec_lt (to_index group) max_groups) [
  | no out ↦ absurd (cc (acquire_group_out_of_range r group (omega arith)))
  | yes gl ↦ elim (has_channel r (to_index group)) [
    | inl (closed, z) ↦ cc (acquire_group_without_channel r group gl closed z)
    | inr ch ↦ elim (has_room r ok.tokens) [
      | inl full ↦ absurd (ne (cc ((acquire_group_leaks r group small ok gl ch full).2)))
      | inr room ↦ absurd (cc ((acquire_group_lem r group small ok gl ch room).3))
    ]
  ]
]

-- The registries that calls which return can lead to, from a new one. What `release` refuses and
-- what finds no channel changes nothing, and needs no step.
pub data History : TokenRegistry → Type 0 where
  fresh : History new
  acquired : {r q : TokenRegistry} (t : PublishToken) → History r → acquire r ≡ done q t → History q
  joined_group :
      {r q : TokenRegistry} (group : ChannelGroup) (t : PublishToken)
      → History r
      → acquire_group group r ≡ done q t
      → History q
  released :
      {r q : TokenRegistry} (t : PublishToken) → History r → release t r ≡ done q tt → History q

-- After any sequence of calls of acquire, acquire(group) and release that return, from a new registry
-- on, the registry is valid: the free tokens and the free channels are on their stacks, each once, and no
-- others; the reference count of a channel is the number of its tokens; an exclusive channel in use has
-- one; and the channels of the groups are in use, shared, and no two groups have the same.
pub History-IsValid : {r : TokenRegistry} → History r → IsValid r
History-IsValid fresh = new-IsValid
History-IsValid (acquired {r} {q} t h e) = (acquire-done r q t (History-IsValid h) e).1.valid
History-IsValid (joined_group {r} {q} group t h e) =
    (acquire_group-done r q group t nothing-Bounded (History-IsValid h) e).1.valid
History-IsValid (released {r} {q} t h e) = (release-done r q t (History-IsValid h) e).2.valid
