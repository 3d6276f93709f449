-- ===== src/Publisher/Handle/Crowd/Kept.antt =====
-- Every operation of RegistrationHandle (registration_handle.hpp) keeps one owner for each token.
use my_server.Publisher.Registry.Leaks.{valid-IsKept}
use my_server.Common.{
  ◌^◌, ◌<◌, ◌+◌, ◌≤◌, ◌∙◌, ℕ, ◌≡◌, ◌≢◌, inl, inr, refl, sym, subst, fun_ext, none, some, arith,
  update, ℕ_discrete, Option-cases,
}
use my_server.Publisher.Types.{PublishToken}
use my_server.Publisher.Registry.{max_bindings, acquire, acquire_group, resolve, new}
use my_server.Publisher.Registry.Invariant.{new-IsValid}
use my_server.Publisher.Handle.{
  RegistrationHandle, Registries, detached, new_exclusive, new_grouped, destroy, move_assign,
  reassign, reassign_group, release_handle,
}
use my_server.Publisher.Handle.Crowd.{
  fails, fails_grouped, starves, Crowd, Step, builds, builds_grouped, moves, assigns, reassigns,
  reassigns_group, ends, Reach, here, next, IsOwned, holding,
}
use my_server.Publisher.Handle.Crowd.Changes.{Taken, moved-IsOwned, starved-IsOwned}
use my_server.Publisher.Handle.Crowd.Takers.{
  acquire-IsTaker, acquire_group-IsTaker, take_token-Taken, take_token-refused,
}
use my_server.Publisher.Handle.Crowd.Calls.{
  holding-update, without, release_handle-IsOwned, holding_invalid, Taken-holding,
  reassign_by-IsOwned,
}

holding-detached : holding detached ≡ none
holding-detached = holding_invalid detached refl

-- A handle that holds nothing may as well not be there.
without-none :
    (hs : ℕ → RegistrationHandle) (k : ℕ)
    → holding (hs k) ≡ none
    → (λ l. holding (hs l)) ≡ without hs k
without-none hs k e = fun_ext λ l. elim (ℕ_discrete k l) [
  | yes there ↦ rw (← there) (ground (arith, e))
  | no elsewhere ↦ ground arith
]

built-IsOwned :
    (n : ℕ) (rs rs' : Registries) (hs : ℕ → RegistrationHandle) (k i : ℕ) (h : RegistrationHandle)
    → hs k ≡ detached
    → IsOwned n rs (λ l. holding (hs l))
    → Taken n rs rs' i h.token × (h.registry ≡ some i)
    → IsOwned n rs' (λ l. holding (update hs k h l))
built-IsOwned n rs rs' hs k i h free o (x, at) =
    Taken-holding n rs rs' hs k i h
      (subst (IsOwned n rs) (without-none hs k (rw free holding-detached)) o) x at

-- Handle `l` goes to the place of `k`, which holds nothing.
moves-IsOwned :
    (n : ℕ) (rs : Registries) (hs : ℕ → RegistrationHandle) (k l : ℕ)
    → k ≢ l
    → IsOwned n rs (without hs k)
    → IsOwned n rs (λ m. holding (update (update hs k (hs l)) l detached m))
moves-IsOwned n rs hs k l ne o = moved-IsOwned n rs (without hs k) _ k l o ne (ground arith) (λ m.
    ground (
      arith,
      holding-update (update hs k (hs l)) l detached m,
      holding-update hs k (hs l) m,
      holding-detached,
    ))

assigned-IsOwned :
    (n : ℕ) (rs rs' : Registries) (hs : ℕ → RegistrationHandle) (k l : ℕ)
    (h other : RegistrationHandle)
    → k ≢ l
    → IsOwned n rs (λ m. holding (hs m))
    → move_assign (hs k) (hs l) rs ≡ some (rs', h, other)
    → IsOwned n rs' (λ m. holding (update (update hs k h) l other m))
unfolding move_assign
assigned-IsOwned n rs rs' hs k l h other ne o e = elim (Option-cases (release_handle (hs k) rs)) [
  | inl z ↦ absurd (ground arith)
  | inr ((mid, h1), f) ↦
      let left : rs' ≡ mid = ground arith in
      let taken : h ≡ hs l = ground arith in
      let gone : other ≡ detached = ground arith in
      rw (left, taken, gone)
        (moves-IsOwned n mid hs k l ne (release_handle-IsOwned n rs mid hs k h1 o f).0)
]

ended-IsOwned :
    (n : ℕ) (rs rs' : Registries) (hs : ℕ → RegistrationHandle) (k : ℕ)
    → IsOwned n rs (λ l. holding (hs l))
    → destroy (hs k) rs ≡ some rs'
    → IsOwned n rs' (λ l. holding (update hs k detached l))
unfolding destroy
ended-IsOwned n rs rs' hs k o e = elim (Option-cases (release_handle (hs k) rs)) [
  | inl z ↦ absurd (ground arith)
  | inr ((mid, h1), f) ↦
      let left : rs' ≡ mid = ground arith in
      let same : without hs k ≡ (λ l. holding (update hs k detached l)) =
        fun_ext (λ l. ground (arith, holding-update hs k detached l, holding-detached)) in
      rw left (subst (IsOwned n mid) same (release_handle-IsOwned n rs mid hs k h1 o f).0)
]

Step-IsOwned :
    (s t : Crowd)
    → s.starved + max_bindings + 1 < 2 ^ 64
    → Step s t
    → IsOwned s.starved s.registries (λ k. holding (s.handles k))
    → IsOwned t.starved t.registries (λ k. holding (t.handles k))
unfolding new_exclusive new_grouped reassign reassign_group
Step-IsOwned s t small (builds k i rs h free e w) o = rw w (
    built-IsOwned s.starved s.registries rs s.handles k i h free o
      (take_token-Taken s.starved s.registries rs i acquire h acquire-IsTaker small o.registries e))
Step-IsOwned s t small (builds_grouped k i group rs h free e w) o = rw w (
    built-IsOwned s.starved s.registries rs s.handles k i h free o (
      take_token-Taken s.starved s.registries rs i (acquire_group group) h
        (acquire_group-IsTaker group) small o.registries e))
Step-IsOwned s t small (fails i rs error e w) o = rw w (
    starved-IsOwned s.starved (s.starved + starves error) s.registries rs _ o (
      take_token-refused s.starved s.registries rs i acquire error acquire-IsTaker small
        o.registries e))
Step-IsOwned s t small (fails_grouped i group rs error e w) o = rw w (
    starved-IsOwned s.starved (s.starved + starves error) s.registries rs _ o (
      take_token-refused s.starved s.registries rs i (acquire_group group) error
        (acquire_group-IsTaker group) small o.registries e))
Step-IsOwned s t small (moves k l ne free w) o = rw w (
    moves-IsOwned s.starved s.registries s.handles k l ne (
      subst (IsOwned s.starved s.registries) (without-none s.handles k (rw free holding-detached))
        o))
Step-IsOwned s t small (assigns k l rs h other ne e w) o =
    rw w (assigned-IsOwned s.starved s.registries rs s.handles k l h other ne o e)
Step-IsOwned s t small (reassigns k rs h thrown e w) o = rw w (
    reassign_by-IsOwned s.starved s.registries rs s.handles k h thrown acquire acquire-IsTaker small
      o e)
Step-IsOwned s t small (reassigns_group k group rs h thrown e w) o = rw w (
    reassign_by-IsOwned s.starved s.registries rs s.handles k h thrown (acquire_group group)
      (acquire_group-IsTaker group) small o e)
Step-IsOwned s t small (ends k rs e w) o =
    rw w (ended-IsOwned s.starved s.registries rs s.handles k o e)

starved-le : (s t : Crowd) → Step s t → s.starved ≤ t.starved
starved-le s t (builds k i rs h free e w) = rw w (omega arith)
starved-le s t (builds_grouped k i group rs h free e w) = rw w (omega arith)
starved-le s t (fails i rs error e w) = rw w (omega arith)
starved-le s t (fails_grouped i group rs error e w) = rw w (omega arith)
starved-le s t (moves k l ne free w) = rw w (omega arith)
starved-le s t (assigns k l rs h other ne e w) = rw w (omega arith)
starved-le s t (reassigns k rs h thrown e w) = rw w (omega arith)
starved-le s t (reassigns_group k group rs h thrown e w) = rw w (omega arith)
starved-le s t (ends k rs e w) = rw w (omega arith)

new_unbound : (t : PublishToken) → resolve new t ≡ none
unfolding new resolve
new_unbound t = ground arith

-- From new registries without a handle, whatever the handles go through, operations that throw among
-- them, of which fewer than 2 ^ 64 - 257 have found no token left: every registry is valid but for
-- users without a token, who are at most as many as those operations; every token that resolves is held
-- by exactly one valid handle, and the token of every valid handle resolves.
pub Reach-IsOwned :
    (s : Crowd)
    → s.starved + max_bindings + 1 < 2 ^ 64
    → Reach s
    → IsOwned s.starved s.registries (λ k. holding (s.handles k))
Reach-IsOwned s small here = record {
  registries = λ i. valid-IsKept new new-IsValid;
  owns = λ k i t e. absurd (cc (sym e ∙ holding-detached));
  unique = λ k l i t e f. absurd (cc (sym e ∙ holding-detached));
  owned = λ i t ne. absurd (ne (new_unbound t));
}
Reach-IsOwned s small (next {s = r} h st) =
    let before : r.starved + max_bindings + 1 < 2 ^ 64 = omega (arith, small, starved-le r s st) in
    Step-IsOwned r s before st (Reach-IsOwned r before h)
