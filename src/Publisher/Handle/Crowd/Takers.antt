-- ===== src/Publisher/Handle/Crowd/Takers.antt =====
-- The methods of TokenRegistry as a RegistrationHandle calls them (registration_handle.hpp): an
-- interface that both methods that hand out tokens fill.
use my_server.Publisher.Handle.Crowd.{starves}
use my_server.Common.{
  ◌^◌, ◌<◌, ◌+◌, ℕ, ◌≡◌, inl, inr, refl, subst, none, some, arith, ◌==◌, if◌then◌else◌, update,
  update_self, update_ne, ℕ_discrete,
}
use my_server.Common.Outcome.{◌>>=◌, Outcome-cases, done, threw}
use my_server.Publisher.Types.{ChannelGroup, PublishToken}
use my_server.Publisher.Registry.{
  no_free_channels, pool_overflow, already_free, invalid_token, max_bindings, TokenRegistry, Error,
  M, capacity_exceeded, resolve, acquire, acquire_group,
}
use my_server.Publisher.Registry.Leaks.{IsKept, IsKept-le, IsKept-Bounded}
use my_server.Publisher.Registry.Leaks.Calls.{After, perform-After}
use my_server.Publisher.Registry.Refines.{perform}
use my_server.Publisher.Registry.Book.{Call}
use my_server.Publisher.Registry.History.{acquire-done, acquire_group-done}
use my_server.Publisher.Handle.{RegistrationHandle, Registries, take_token}
use my_server.Publisher.Handle.Crowd.Changes.{Taken}

-- What a handle asks of the method that gives it a token.
pub record IsTaker (m : M PublishToken) : Type 0 where
  pub takes :
      (n : ℕ) (r q : TokenRegistry) (t : PublishToken)
      → n + max_bindings + 1 < 2 ^ 64
      → IsKept n r
      → m r ≡ done q t
      → (c : ℕ) × IsKept n q
        × (resolve r t ≡ none)
        × ((s : PublishToken) → resolve q s ≡ (if s == t then some c else resolve r s))
  pub refuses :
      (n : ℕ) (r q : TokenRegistry) (e : Error)
      → n + max_bindings + 1 < 2 ^ 64
      → IsKept n r
      → m r ≡ threw q e
      → IsKept (n + starves e) q × ((s : PublishToken) → resolve q s ≡ resolve r s)

-- What a call leaves when it throws.
After-threw :
    (n : ℕ) (r q : TokenRegistry) (e : Error) (k : IsKept n r)
    → After k.extra r (threw q e)
    → IsKept (n + starves e) q × ((s : PublishToken) → resolve q s ≡ resolve r s)
After-threw n r q capacity_exceeded k (a, same) = (
  record { extra = a.extra'; consistent = a.consistent; few = omega (arith, a.total, k.few) },
  same,
)
After-threw n r q invalid_token k a = rw a (IsKept-le n (n + 0) r (omega arith) k, λ s. refl)
After-threw n r q already_free k a = rw a (IsKept-le n (n + 0) r (omega arith) k, λ s. refl)
After-threw n r q pool_overflow k a = rw a (IsKept-le n (n + 0) r (omega arith) k, λ s. refl)
After-threw n r q no_free_channels k a = rw a (IsKept-le n (n + 0) r (omega arith) k, λ s. refl)

-- Both methods of the registry are such.
pub acquire-IsTaker : IsTaker acquire
unfolding perform
acquire-IsTaker = record {
  takes = λ n r q t small k e.
      let a = acquire-done r q t k.consistent e in
      (
        a.0,
        record { extra = k.extra; consistent = a.1.valid; few = k.few },
        a.1.unused,
        a.1.resolves,
      );
  refuses = λ n r q e small k h.
      let thrown : perform Call.acquire r ≡ threw q e = rw (h, perform, ◌>>=◌) refl in
      After-threw n r q e k (
        subst (After k.extra r) thrown
          (perform-After k.extra r Call.acquire k.consistent (IsKept-Bounded n r k small)));
}

pub acquire_group-IsTaker : (group : ChannelGroup) → IsTaker (acquire_group group)
unfolding perform
acquire_group-IsTaker group = record {
  takes = λ n r q t small k e.
      let a = acquire_group-done r q group t (IsKept-Bounded n r k small) k.consistent e in
      (
        a.0,
        record { extra = k.extra; consistent = a.1.valid; few = k.few },
        a.1.unused,
        a.1.resolves,
      );
  refuses = λ n r q e small k h.
      let thrown : perform (Call.acquire_group group) r ≡ threw q e = rw (h, perform, ◌>>=◌) refl in
      After-threw n r q e k (
        subst (After k.extra r) thrown (
          perform-After k.extra r (Call.acquire_group group) k.consistent
            (IsKept-Bounded n r k small)));
}

-- A registry of the store that has handed out a token.
pub took :
    (n : ℕ) (rs : Registries) (i : ℕ) (q : TokenRegistry) (t : PublishToken) (m : M PublishToken)
    → IsTaker m
    → n + max_bindings + 1 < 2 ^ 64
    → ((j : ℕ) → IsKept n (rs j))
    → m (rs i) ≡ done q t
    → Taken n rs (update rs i q) i t
took n rs i q t m taker small ok e = record {
  channel = a.0;
  registries = λ j. elim (ℕ_discrete i j) [
    | yes same ↦ subst (λ k. IsKept n (update rs i q k)) same (rw (update_self rs i q) a.1)
    | no ne ↦ rw (update_ne rs i q j ne) (ok j)
  ];
  unused = a.2;
  resolves = λ j s. elim (ℕ_discrete i j) [
    | yes same ↦ rw (← same) (rw (update_self rs i q) (ground (arith, a.3 s)))
    | no ne ↦ rw (update_ne rs i q j ne) (ground arith)
  ];
}
  where
    a :
        (c : ℕ) × IsKept n q
        × (resolve (rs i) t ≡ none)
        × ((s : PublishToken) → resolve q s ≡ (if s == t then some c else resolve (rs i) s))
    a = taker.takes n (rs i) q t small (ok i) e

-- A constructor that returns has taken a token for its handle.
pub take_token-Taken :
    (n : ℕ) (rs rs' : Registries) (i : ℕ) (m : M PublishToken) (h : RegistrationHandle)
    → IsTaker m
    → n + max_bindings + 1 < 2 ^ 64
    → ((j : ℕ) → IsKept n (rs j))
    → take_token i m rs ≡ done rs' h
    → Taken n rs rs' i h.token × (h.registry ≡ some i)
unfolding take_token
take_token-Taken n rs rs' i m h taker small ok e = elim (Outcome-cases (m (rs i))) [
  | inl (q, t, f) ↦
      let built : h ≡ record { registry = some i; token = t } = ground arith in
      let left : rs' ≡ update rs i q = ground arith in
      rw (built, left) (took n rs i q t m taker small ok f, refl)
  | inr (inl (q, x, f)) ↦ absurd (ground arith)
  | inr (inr f) ↦ absurd (ground arith)
]

-- A registry of the store that has thrown.
pub refused :
    (n : ℕ) (rs : Registries) (i : ℕ) (q : TokenRegistry) (e : Error) (m : M PublishToken)
    → IsTaker m
    → n + max_bindings + 1 < 2 ^ 64
    → ((j : ℕ) → IsKept n (rs j))
    → m (rs i) ≡ threw q e
    → (j : ℕ)
    → IsKept (n + starves e) (update rs i q j)
      × ((s : PublishToken) → resolve (update rs i q j) s ≡ resolve (rs j) s)
refused n rs i q e m taker small ok h j = elim (ℕ_discrete i j) [
  | yes same ↦ rw (← same) (rw (update_self rs i q) (taker.refuses n (rs i) q e small (ok i) h))
  | no ne ↦
      rw (update_ne rs i q j ne)
        (IsKept-le n (n + starves e) (rs j) (omega arith) (ok j), λ s. refl)
]

-- A constructor that throws has left a registry so.
pub take_token-refused :
    (n : ℕ) (rs rs' : Registries) (i : ℕ) (m : M PublishToken) (e : Error)
    → IsTaker m
    → n + max_bindings + 1 < 2 ^ 64
    → ((j : ℕ) → IsKept n (rs j))
    → take_token i m rs ≡ threw rs' e
    → (j : ℕ)
    → IsKept (n + starves e) (rs' j) × ((s : PublishToken) → resolve (rs' j) s ≡ resolve (rs j) s)
unfolding take_token
take_token-refused n rs rs' i m e taker small ok h j = elim (Outcome-cases (m (rs i))) [
  | inl (q, t, f) ↦ absurd (ground arith)
  | inr (inl (q, x, f)) ↦
      let left : rs' ≡ update rs i q = ground arith in
      let same : e ≡ x = ground arith in rw (left, same) (refused n rs i q x m taker small ok f j)
  | inr (inr f) ↦ absurd (ground arith)
]
