-- ===== src/Common/Outcome.antt =====
-- The result of a method that changes an object and may throw. An exception keeps what was written
-- before it; a failed `assert` and an index out of range are `fault`, which has no state.
use mathlib.Core.Path.{◌≡◌, refl}
use mathlib.Core.Logic.{◌⊎◌, inl, inr}
use mathlib.Core.Bool.{Bool, true, false}

pub data Outcome (S E A : Type 0) : Type 0 where
  done : S → A → Outcome S E A
  threw : S → E → Outcome S E A
  fault : Outcome S E A

module _ {S E : Type 0} where
  abbrev pub pure : {A : Type 0} → A → S → Outcome S E A
  pure a s = done s a

  abbrev pub throw : {A : Type 0} → E → S → Outcome S E A
  throw e s = threw s e

  -- `assert(b)`.
  abbrev pub assert : Bool → S → Outcome S E (Unit {0})
  assert true s = done s tt
  assert false s = fault

  infixl 5 ◌>>=◌ ◌>>◌
  abbrev pub ◌>>=◌ :
      {A B : Type 0} → (S → Outcome S E A) → (A → S → Outcome S E B) → S → Outcome S E B
  ◌>>=◌ m f s = elim (m s) [ done s' a ↦ f a s' | threw s' e ↦ threw s' e | fault ↦ fault ]

  abbrev pub ◌>>◌ :
      {B : Type 0} → (S → Outcome S E (Unit {0})) → (S → Outcome S E B) → S → Outcome S E B
  m >> k = m >>= λ _. k

  -- The state that a call leaves: that of the call where it faults.
  abbrev pub after : {A : Type 0} → S → Outcome S E A → S
  after s (done s' a) = s'
  after s (threw s' e) = s'
  after s fault = s

  pub Outcome-cases :
      {A : Type 0} (o : Outcome S E A)
      → ((s : S) × (a : A) × (o ≡ done s a)) ⊎ ((s : S) × (e : E) × (o ≡ threw s e)) ⊎ (o ≡ fault)
  Outcome-cases (done s a) = inl (s, a, refl)
  Outcome-cases (threw s e) = inr (inl (s, e, refl))
  Outcome-cases fault = inr (inr refl)
