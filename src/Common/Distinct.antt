-- ===== src/Common/Distinct.antt =====
-- Lists of numbers without repetitions.
use mathlib.Core.Path.{◌≡◌, refl, ap, sym}
use Prim.Native.Nat.{ℕ}
use mathlib.Core.Logic.{◌≢◌}
use mathlib.Core.List.{List, [], ◌∷◌, ◌++◌}
use native.Mathlib.Omega.{arith}

abbrev pub NotIn : ℕ → List ℕ → Type 0
NotIn n [] = Unit {0}
NotIn n (x ∷ xs) = (n ≢ x) × NotIn n xs

abbrev pub IsDistinct : List ℕ → Type 0
IsDistinct [] = Unit {0}
IsDistinct (x ∷ xs) = NotIn x xs × IsDistinct xs

pub append-NotIn : (n : ℕ) (xs ys : List ℕ) → NotIn n xs → NotIn n ys → NotIn n (xs ++ ys)
append-NotIn n [] ys h k = k
append-NotIn n (x ∷ xs) ys (ne, h) k = (ne, append-NotIn n xs ys h k)

pub append-NotIn_left : (n : ℕ) (xs ys : List ℕ) → NotIn n (xs ++ ys) → NotIn n xs
append-NotIn_left n [] ys h = tt
append-NotIn_left n (x ∷ xs) ys (ne, h) = (ne, append-NotIn_left n xs ys h)

pub append-NotIn_right : (n : ℕ) (xs ys : List ℕ) → NotIn n (xs ++ ys) → NotIn n ys
append-NotIn_right n [] ys h = h
append-NotIn_right n (x ∷ xs) ys (ne, h) = append-NotIn_right n xs ys h

pub snoc-IsDistinct :
    (xs : List ℕ) (n : ℕ) → IsDistinct xs → NotIn n xs → IsDistinct (xs ++ (n ∷ []))
snoc-IsDistinct [] n d h = (tt, tt)
snoc-IsDistinct (x ∷ xs) n (f, d) (ne, h) =
    (append-NotIn x xs (n ∷ []) f ((λ e. omega arith), tt), snoc-IsDistinct xs n d h)

pub append_assoc {ℓ} : {A : Type ℓ} (xs ys zs : List A) → (xs ++ ys) ++ zs ≡ xs ++ (ys ++ zs)
append_assoc [] ys zs = refl
append_assoc (x ∷ xs) ys zs = ap (λ r. x ∷ r) (append_assoc xs ys zs)

pub append_nil {ℓ} : {A : Type ℓ} (xs : List A) → xs ++ [] ≡ xs
append_nil [] = refl
append_nil (x ∷ xs) = ap (λ r. x ∷ r) (append_nil xs)

pub insert-NotIn :
    (n h : ℕ) (xs ys : List ℕ) → n ≢ h → NotIn n (xs ++ ys) → NotIn n (xs ++ (h ∷ ys))
insert-NotIn n h [] ys ne f = (ne, f)
insert-NotIn n h (x ∷ xs) ys ne (a, f) = (a, insert-NotIn n h xs ys ne f)

pub insert-IsDistinct :
    (h : ℕ) (xs ys : List ℕ)
    → NotIn h (xs ++ ys)
    → IsDistinct (xs ++ ys)
    → IsDistinct (xs ++ (h ∷ ys))
insert-IsDistinct h [] ys f d = (f, d)
insert-IsDistinct h (x ∷ xs) ys (ne, f) (g, d) =
    (insert-NotIn x h xs ys (λ e. omega arith) g, insert-IsDistinct h xs ys f d)

pub middle-NotIn : (h : ℕ) (xs ys : List ℕ) → IsDistinct (xs ++ (h ∷ ys)) → NotIn h xs
middle-NotIn h [] ys d = tt
middle-NotIn h (x ∷ xs) ys (g, d) =
    ((λ e. (append-NotIn_right x xs (h ∷ ys) g).0 (sym e)), middle-NotIn h xs ys d)

remove-NotIn : (n h : ℕ) (xs ys : List ℕ) → NotIn n (xs ++ (h ∷ ys)) → NotIn n (xs ++ ys)
remove-NotIn n h [] ys (ne, f) = f
remove-NotIn n h (x ∷ xs) ys (ne, f) = (ne, remove-NotIn n h xs ys f)

pub remove-IsDistinct :
    (h : ℕ) (xs ys : List ℕ)
    → IsDistinct (xs ++ (h ∷ ys))
    → NotIn h (xs ++ ys) × IsDistinct (xs ++ ys)
remove-IsDistinct h [] ys d = d
remove-IsDistinct h (x ∷ xs) ys (f, d) =
    let (g, e) = remove-IsDistinct h xs ys d in
    (((λ k. (append-NotIn_right x xs (h ∷ ys) f).0 (sym k)), g), (remove-NotIn x h xs ys f, e))

-- A number may move forward over a part of the list.
pub move-IsDistinct :
    (h : ℕ) (xs ys zs : List ℕ)
    → IsDistinct (xs ++ (ys ++ (h ∷ zs)))
    → IsDistinct (xs ++ (h ∷ (ys ++ zs)))
move-IsDistinct h xs ys zs d =
    let (f, e) = remove-IsDistinct h (xs ++ ys) zs (rw (append_assoc xs ys (h ∷ zs)) d) in
    insert-IsDistinct h xs (ys ++ zs) (rw⁻¹ (append_assoc xs ys zs) f)
      (rw⁻¹ (append_assoc xs ys zs) e)
