-- ===== src/Common/Arrays.antt =====
-- A fixed-size array as a function of its index. Every access of the models tests the index
-- against the size, and a count adds up the cells below a bound that pass a test.
use Prim.Native.Nat.{ℕ, zero, suc, ◌+◌, ◌≤◌, ◌<◌}
use mathlib.Core.Path.{◌∙◌, ◌≡◌, refl, sym, ap}
use mathlib.Core.Logic.{◌≢◌}
use mathlib.Core.Bool.{false, Bool, true}
use native.Mathlib.Omega.{arith}
use native.Mathlib.Decide.{ℕ_discrete}
use my_server.Common.Tests.{if◌then◌else◌, ◌==◌, bit}

abbrev pub update {ℓ} : {A : Type ℓ} → (ℕ → A) → ℕ → A → ℕ → A
update f i v j = if i == j then v else f j

pub update_self {ℓ} : {A : Type ℓ} (f : ℕ → A) (i : ℕ) (v : A) → update f i v i ≡ v
update_self f i v = ground arith

pub update_ne {ℓ} : {A : Type ℓ} (f : ℕ → A) (i : ℕ) (v : A) (j : ℕ) → i ≢ j → update f i v j ≡ f j
update_ne f i v j h = ground arith

unfoldable pub count : ℕ → (ℕ → Bool) → ℕ
count zero p = 0
count (suc n) p = bit (p n) + count n p

pub count-le : (n : ℕ) (p : ℕ → Bool) → count n p ≤ n
unfolding count
count-le zero p = omega arith
count-le (suc n) p = ground (arith, count-le n p)

pub count-congr : (n : ℕ) (p q : ℕ → Bool) → ((t : ℕ) → t < n → p t ≡ q t) → count n p ≡ count n q
unfolding count
count-congr zero p q h = refl
count-congr (suc n) p q h =
    ground (arith, h n (omega arith), count-congr n p q (λ t lt. h t (omega arith)))

-- Two tests that differ at one place below the bound have counts that differ by that place.
pub count-differ :
    (n i : ℕ) (p q : ℕ → Bool)
    → ((t : ℕ) → t ≢ i → p t ≡ q t)
    → i < n
    → count n q + bit (p i) ≡ count n p + bit (q i)
unfolding count
count-differ zero i p q h lt = absurd (omega arith)
count-differ (suc n) i p q h lt = elim (ℕ_discrete i n) [
  | yes e ↦ rw e (rw (count-congr n p q (λ t tn. h t (λ e'. omega arith))) (omega arith))
  | no ne ↦ omega (arith, ap bit (h n (λ e. ne (sym e))), count-differ n i p q h (omega arith))
]

pub count-suc : (n : ℕ) (p : ℕ → Bool) → count (suc n) p ≡ bit (p n) + count n p
unfolding count
count-suc n p = refl

pub count-zero : (p : ℕ → Bool) → count 0 p ≡ 0
unfolding count
count-zero p = refl

-- What passes the test is counted.
pub count-pos : (n i : ℕ) (p : ℕ → Bool) → i < n → p i ≡ true → 0 < count n p
unfolding count
count-pos zero i p lt h = absurd (omega arith)
count-pos (suc n) i p lt h = elim (ℕ_discrete i n) [
  | yes e ↦ ground arith
  | no ne ↦ omega (arith, count-pos n i p (omega arith) h)
]

-- Two places that pass count twice.
pub count-two :
    (n i j : ℕ) (p : ℕ → Bool) → i < n → j < n → i ≢ j → p i ≡ true → p j ≡ true → 2 ≤ count n p
count-two n i j p il jl ne hi hj =
    let cleared = update p i false in
    omega (
      arith,
      count-differ n i p cleared (λ t h. sym (update_ne p i false t (λ e. h (sym e)))) il,
      count-pos n j cleared jl (update_ne p i false j ne ∙ hj),
      ap bit hi,
      ap bit (update_self p i false),
    )

pub count-none : (n : ℕ) → count n (λ t. false) ≡ 0
unfolding count
count-none zero = refl
count-none (suc n) = omega (arith, count-none n)

pub count-all : (n : ℕ) → count n (λ t. true) ≡ n
unfolding count
count-all zero = refl
count-all (suc n) = omega (arith, count-all n)
