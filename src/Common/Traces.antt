-- ===== src/Common/Traces.antt =====
-- Sequences of observed calls, of a program and of what specifies it.
use mathlib.Core.List.{List, [], ◌∷◌}

module _ {ℓ κ} {S : Type ℓ} {E : Type κ} where
  -- What the steps labelled with the events, in order, can make of a state.
  pub data Trace (Step : S → E → S → Type 0) : S → List E → S → Type (ℓ ⊔ κ) where
    here : {s : S} → Trace Step s [] s
    later :
        {es : List E} {s t u : S} (e : E) → Step s e t → Trace Step t es u → Trace Step s (e ∷ es) u

-- A program whose steps a specification can follow, from states that are related on, has no trace but
-- those of the specification.
module _ {ℓ κ ν} {S : Type ℓ} {A : Type κ} {E : Type ν} (Step : S → E → S → Type 0)
    (Spec : A → E → A → Type 0) (Related : S → A → Type 0)
    (follows : (s t : S) (e : E) (a : A)
      → Related s a
      → Step s e t
      → (b : A) × Spec a e b × Related t b) where
  pub Trace-follows :
      {es : List E} (s t : S) (a : A)
      → Related s a
      → Trace Step s es t
      → (b : A) × Trace Spec a es b × Related t b
  Trace-follows s t a r (Trace.here) = (a, Trace.here, r)
  Trace-follows s t a r (Trace.later {t = u} e st tr) =
      let (b, sp, q) = follows s u e a r st in
      let (c, rest, final) = Trace-follows u t b q tr in (c, Trace.later e sp rest, final)
