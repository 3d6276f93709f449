-- ===== src/Publisher/Handle/Crowd/Calls.antt =====
-- The operations of RegistrationHandle (registration_handle.hpp), as tokens taken and dropped.
use my_server.Publisher.Handle.Crowd.Takers.{IsTaker, took, refused}
use my_server.Publisher.Handle.Ownership.{release_handle_owned, release_handle_idle, HandleReleased}
use my_server.Common.{
  ◌^◌, ◌<◌, ◌≤◌, ◌+◌, fun_ext, Option, ℕ, ◌≡◌, ◌≢◌, ◌⊎◌, inl, inr, refl, subst, none, some, true,
  false, arith, ◌==◌, if◌then◌else◌, update, ℕ_discrete, Bool-cases, Option-cases,
}
use my_server.Common.Outcome.{Outcome-cases}
use my_server.Publisher.Types.{PublishToken}
use my_server.Publisher.Registry.{max_channels, max_bindings, TokenRegistry, Error, M, resolve}
use my_server.Publisher.Registry.Leaks.{sum, IsKept}
use my_server.Publisher.Handle.{
  reassign_by, retake, invalid_token, release_handle, RegistrationHandle, Registries, valid,
}
use my_server.Publisher.Handle.Crowd.{starves, starves_if, IsOwned, holding}
use my_server.Publisher.Handle.Crowd.Changes.{
  starved-IsOwned, Taken-IsOwned, Dropped-IsOwned, Dropped, Taken,
}

-- A handle that holds a token that resolves.
pub holding_token :
    (h : RegistrationHandle) (i : ℕ) (r : TokenRegistry)
    → h.registry ≡ some i
    → resolve r h.token ≢ none
    → holding h ≡ some (i, h.token)
unfolding holding resolve
holding_token h i r e ne = ground arith

pub holding-cases :
    (h : RegistrationHandle)
    → ((valid h ≡ false) × (holding h ≡ none))
      ⊎ ((i : ℕ) × (h.registry ≡ some i) × (valid h ≡ true) × (holding h ≡ some (i, h.token)))
unfolding holding
holding-cases h = elim (Option-cases h.registry) [
  | inl z ↦ inl (ground arith, ground arith)
  | inr (i, at) ↦ elim (Bool-cases (valid h)) [
    | inl v ↦ inr (i, at, v, ground (arith, v))
    | inr v ↦ inl (v, ground (arith, v))
  ]
]

-- A family of handles with one replaced.
pub holding-update :
    (hs : ℕ → RegistrationHandle) (k : ℕ) (h : RegistrationHandle) (l : ℕ)
    → holding (update hs k h l) ≡ (if k == l then holding h else holding (hs l))
holding-update hs k h l = elim (Bool-cases (k == l)) [ inl e ↦ rw e refl | inr e ↦ rw e refl ]

released-Dropped :
    (n : ℕ) {extra : ℕ → ℕ} (rs rs' : Registries) (h : RegistrationHandle) (i c : ℕ)
    → ((j : ℕ) → IsKept n (rs j))
    → sum max_channels extra ≤ n
    → HandleReleased extra rs h i c rs'
    → Dropped n rs rs' i h.token
released-Dropped n {extra} rs rs' h i c ok few a = record {
  registries = λ j. elim (ℕ_discrete j i) [
    | yes same ↦ rw same (record { extra = extra; consistent = a.registry.valid; few = few })
    | no ne ↦ rw (a.others j ne) (ok j)
  ];
  resolves = λ j s. elim (ℕ_discrete j i) [
    | yes same ↦ rw same (ground (arith, a.registry.resolves s))
    | no ne ↦ rw (a.others j ne) (ground arith)
  ];
}

-- What is left when handle `k` has given its token back, if it had one.
abbrev pub without : (ℕ → RegistrationHandle) → ℕ → ℕ → Option (ℕ × PublishToken)
without hs k l = if k == l then none else holding (hs l)

pub release_handle-IsOwned :
    (n : ℕ) (rs rs' : Registries) (hs : ℕ → RegistrationHandle) (k : ℕ) (h : RegistrationHandle)
    → IsOwned n rs (λ l. holding (hs l))
    → release_handle (hs k) rs ≡ some (rs', h)
    → IsOwned n rs' (without hs k) × (h ≡ record (hs k) { token = invalid_token })
release_handle-IsOwned n rs rs' hs k h o e = elim (holding-cases (hs k)) [
  | inl (idle, nothing) ↦
      let left : rs' ≡ rs = cc (release_handle_idle rs (hs k) idle) in
      let same : (λ l. holding (hs l)) ≡ without hs k = fun_ext (λ l. elim (ℕ_discrete k l) [
        | yes there ↦ rw (← there) (ground (arith, nothing))
        | no elsewhere ↦ ground arith
      ]) in
      (rw left (subst (IsOwned n rs) same o), cc (release_handle_idle rs (hs k) idle))
  | inr (i, at, v, held) ↦ elim (Option-cases (resolve (rs i) (hs k).token)) [
    | inl z ↦ absurd (o.owns k i (hs k).token held z)
    | inr (c, r) ↦
        let a =
          release_handle_owned rs (hs k) i c (o.registries i).consistent
            (record { attached = at; resolves = r }) in
        let left : rs' ≡ a.0 = cc (a.1.outcome) in
        (
          rw left (
              Dropped-IsOwned n rs a.0 (λ l. holding (hs l)) (without hs k) k i (hs k).token o
                (released-Dropped n rs a.0 (hs k) i c o.registries (o.registries i).few a.1) held
                (λ l. refl)),
          cc (a.1.outcome),
        )
  ]
]

-- A handle without a token holds nothing.
pub holding_invalid : (h : RegistrationHandle) → h.token ≡ invalid_token → holding h ≡ none
unfolding holding
holding_invalid h e = elim (Option-cases h.registry) [
  | inl z ↦ ground arith
  | inr (i, at) ↦ ground arith
]

-- The handle that has just taken token `t` is the one that holds it.
pub Taken-holding :
    (n : ℕ) (rs rs' : Registries) (hs : ℕ → RegistrationHandle) (k i : ℕ) (h : RegistrationHandle)
    → IsOwned n rs (without hs k)
    → Taken n rs rs' i h.token
    → h.registry ≡ some i
    → IsOwned n rs' (λ l. holding (update hs k h l))
Taken-holding n rs rs' hs k i h o x at =
    Taken-IsOwned n rs rs' (without hs k) (λ l. holding (update hs k h l)) k i h.token o x
      (ground arith) (λ l. ground (arith, holding-update hs k h l, held))
  where
    held : holding h ≡ some (i, h.token)
    held = holding_token h i (rs' i) at (ground (arith, x.resolves i h.token))

retake-IsOwned :
    (n : ℕ) (rs rs' : Registries) (hs : ℕ → RegistrationHandle) (k i : ℕ)
    (h h' : RegistrationHandle) (thrown : Option Error) (m : M PublishToken)
    → IsTaker m
    → n + max_bindings + 1 < 2 ^ 64
    → IsOwned n rs (without hs k)
    → h.registry ≡ some i
    → h.token ≡ invalid_token
    → retake m i (rs, h) ≡ some (rs', h', thrown)
    → IsOwned (n + starves_if thrown) rs' (λ l. holding (update hs k h' l))
unfolding retake
retake-IsOwned n rs rs' hs k i h h' thrown m taker small o at bare e =
    elim (Outcome-cases (m (rs i))) [
      | inl (q, t, f) ↦
          let left : rs' ≡ update rs i q = ground arith in
          let new : h' ≡ record h { token = t } = ground arith in
          let none_thrown : thrown ≡ none = ground arith in
          let zero_more : n ≡ n + 0 = omega arith in
          rw (left, new, none_thrown)
            (subst
              (λ j.
                IsOwned j (update rs i q) (λ l. holding (update hs k (record h { token = t }) l)))
              zero_more
              (Taken-holding n rs (update rs i q) hs k i (record h { token = t }) o
                (took n rs i q t m taker small o.registries f) at))
      | inr (inl (q, x, f)) ↦
          let left : rs' ≡ update rs i q = ground arith in
          let old : h' ≡ h = ground arith in
          let cause : thrown ≡ some x = ground arith in
          let same : without hs k ≡ (λ l. holding (update hs k h l)) =
            fun_ext (λ l. ground (arith, holding-update hs k h l, holding_invalid h bare)) in
          rw (left, old, cause)
            (starved-IsOwned n (n + starves x) rs (update rs i q) _ (subst (IsOwned n rs) same o)
              (λ j. refused n rs i q x m taker small o.registries f j))
      | inr (inr f) ↦ absurd (ground arith)
    ]

-- `reassign` in both its forms.
pub reassign_by-IsOwned :
    (n : ℕ) (rs rs' : Registries) (hs : ℕ → RegistrationHandle) (k : ℕ) (h : RegistrationHandle)
    (thrown : Option Error) (m : M PublishToken)
    → IsTaker m
    → n + max_bindings + 1 < 2 ^ 64
    → IsOwned n rs (λ l. holding (hs l))
    → reassign_by m (hs k) rs ≡ some (rs', h, thrown)
    → IsOwned (n + starves_if thrown) rs' (λ l. holding (update hs k h l))
unfolding reassign_by
reassign_by-IsOwned n rs rs' hs k h thrown m taker small o e = elim (Option-cases (hs k).registry) [
  | inl z ↦ absurd (ground arith)
  | inr (i, at) ↦ elim (Option-cases (release_handle (hs k) rs)) [
    | inl z ↦ absurd (ground arith)
    | inr ((mid, h1), f) ↦
        let a = release_handle-IsOwned n rs mid hs k h1 o f in
        retake-IsOwned n mid rs' hs k i h1 h thrown m taker small a.0 (rw a.1 at) (rw a.1 refl)
          (ground arith)
  ]
]
