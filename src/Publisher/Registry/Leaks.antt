-- ===== src/Publisher/Registry/Leaks.antt =====
-- TokenRegistry (token_registry.hpp) over calls that may fail: an acquire that finds no token left
-- keeps the user that it has counted.
use Registry.{fault, capacity_exceeded}
pub mod Calls
pub mod Lost
mod Tests
use my_server.Common.Outcome.{fault, threw}
use my_server.Publisher.Registry.Refines.{perform}
use my_server.Publisher.Registry.{
  max_bindings, exclusive, threw, Error, max_channels, done, Outcome, TokenRegistry,
}
use my_server.Publisher.Registry
use my_server.Publisher.Registry.Book.{Call, Reply}
use my_server.Common.{
  ◌==◌, count, ◌^◌, ◌≢◌, ℕ_discrete, ℕ, zero, suc, ◌+◌, ◌<◌, ◌≤◌, ◌≡◌, refl, arith,
}
use my_server.Publisher.Registry.Invariant.{Bounded, IsValid, IsConsistent, nothing, one_more}

-- What the calls lead to from a registry on; so many of them have found no token left.
pub data Trail (r : TokenRegistry) : ℕ → TokenRegistry → Type 0 where
  here : Trail r 0 r
  returned :
      {n : ℕ} {s q : TokenRegistry} (call : Call) (reply : Reply)
      → Trail r n s
      → perform call s ≡ done q reply
      → Trail r n q
  refused :
      {n : ℕ} {s q : TokenRegistry} (call : Call) (error : Error)
      → Trail r n s
      → perform call s ≡ threw q error
      → error ≢ capacity_exceeded
      → Trail r n q
  starved :
      {n : ℕ} {s q : TokenRegistry} (call : Call)
      → Trail r n s
      → perform call s ≡ threw q capacity_exceeded
      → Trail r (suc n) q

pub sum : ℕ → (ℕ → ℕ) → ℕ
sum zero f = 0
sum (suc n) f = sum n f + f n

sum-one_more_out : (n c : ℕ) (f : ℕ → ℕ) → n ≤ c → sum n (one_more f c) ≡ sum n f
unfolding sum
sum-one_more_out zero c f le = refl
sum-one_more_out (suc n) c f le = ground (arith, sum-one_more_out n c f (omega arith))

pub sum-one_more : (n c : ℕ) (f : ℕ → ℕ) → c < n → sum n (one_more f c) ≡ suc (sum n f)
unfolding sum
sum-one_more zero c f lt = absurd (omega arith)
sum-one_more (suc n) c f lt = elim (ℕ_discrete c n) [
  | yes e ↦ ground (arith, sum-one_more_out n c f (omega arith))
  | no ne ↦ ground (arith, sum-one_more n c f (omega arith))
]

pub le-sum : (n c : ℕ) (f : ℕ → ℕ) → c < n → f c ≤ sum n f
unfolding sum
le-sum zero c f lt = absurd (omega arith)
le-sum (suc n) c f lt = elim (ℕ_discrete c n) [
  | yes e ↦ rw (← e) (omega arith)
  | no ne ↦ omega (arith, le-sum n c f (omega arith))
]

pub sum-nothing : (n : ℕ) → sum n nothing ≡ 0
unfolding sum
sum-nothing zero = refl
sum-nothing (suc n) = omega (arith, sum-nothing n)

-- What calls of which `n` found no token left have made of the users without one: there are `n` more,
-- and none of the old ones has gone; nor has an exclusive channel with such a user changed its mode.
pub record Keeps (extra : ℕ → ℕ) (n : ℕ) (r q : TokenRegistry) : Type 0 where
  pub extra' : ℕ → ℕ
  pub consistent : IsConsistent extra' q
  pub grows : (c : ℕ) → extra c ≤ extra' c
  pub total : sum max_channels extra' ≡ sum max_channels extra + n
  pub stays :
      (c : ℕ)
      → c < max_channels
      → 0 < extra c
      → r.channel_mode c ≡ exclusive
      → q.channel_mode c ≡ exclusive

pub Keeps-self : (extra : ℕ → ℕ) (r : TokenRegistry) → IsConsistent extra r → Keeps extra 0 r r
Keeps-self extra r ok = record {
  extra' = extra;
  consistent = ok;
  grows = λ c. omega arith;
  total = omega arith;
  stays = λ c lt pos e. e;
}

pub Keeps-trans :
    (extra : ℕ → ℕ) (m n : ℕ) (r s q : TokenRegistry) (k : Keeps extra m r s)
    → Keeps k.extra' n s q
    → Keeps extra (m + n) r q
Keeps-trans extra m n r s q k l = record {
  extra' = l.extra';
  consistent = l.consistent;
  grows = λ c. omega (arith, k.grows c, l.grows c);
  total = omega (arith, k.total, l.total);
  stays = λ c lt pos e. l.stays c lt (omega (arith, k.grows c)) (k.stays c lt pos e);
}

-- The registry is valid but for users without a token, of whom there are at most `n`.
pub record IsKept (n : ℕ) (r : TokenRegistry) : Type 0 where
  pub extra : ℕ → ℕ
  pub consistent : IsConsistent extra r
  pub few : sum max_channels extra ≤ n

pub IsKept-le : (m n : ℕ) (r : TokenRegistry) → m ≤ n → IsKept m r → IsKept n r
IsKept-le m n r le k = record {
  extra = k.extra;
  consistent = k.consistent;
  few = omega (arith, k.few, le);
}

pub IsKept-Bounded :
    (n : ℕ) (r : TokenRegistry) (k : IsKept n r) → n + max_bindings + 1 < 2 ^ 64 → Bounded k.extra
IsKept-Bounded n r k small c lt = omega (arith, le-sum max_channels c k.extra lt, k.few, small)

-- Valid registries are kept.
pub valid-IsKept : (r : TokenRegistry) → IsValid r → IsKept 0 r
valid-IsKept r ok = record {
  extra = nothing;
  consistent = ok;
  few = omega (arith, sum-nothing max_channels);
}

-- What is not free has a user.
pub free_or_used : (m : ℕ) (f : ℕ → ℕ) → m ≤ count m (λ c. f c == 0) + sum m f
unfolding count sum
free_or_used zero f = omega arith
free_or_used (suc m) f = ground (arith, free_or_used m f)
