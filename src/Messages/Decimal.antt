-- ===== src/Messages/Decimal.antt =====
-- Decimal printing: the digits of a number, and reading them again as the text sink does.
use my_server.Common.{
  subst, ltb→lt, ℕ, zero, suc, ◌+◌, ◌*◌, ◌/◌, ◌%◌, ◌≤◌, ◌<◌, ◌≡◌, refl, sym, ap, ◌∙◌, some, false,
  [], ◌∷◌, Bytes, arith, ltb, Bool-cases, inl, inr,
}
use my_server.Messages.{digits, decimal}
use my_server.Publisher.TextSink.{read_digits, read_unsigned, read_signed, read_numeral}

abbrev pub AreDigits : Bytes → Type 0
AreDigits [] = Unit {0}
AreDigits (c ∷ cs) = (48 ≤ c) × (c ≤ 57) × AreDigits cs

digits-AreDigits : (fuel n : ℕ) (out : Bytes) → AreDigits out → AreDigits (digits fuel n out)
unfolding digits
digits-AreDigits zero n out h = h
digits-AreDigits (suc fuel) n out h = elim (Bool-cases (ltb n 10)) [
  | inl e ↦ rw (e, digits) (omega (arith, ltb→lt n 10 e), omega (arith, ltb→lt n 10 e), h)
  | inr e ↦
      rw (e, digits)
        (digits-AreDigits fuel (n / 10) ((48 + n % 10) ∷ out) (omega arith, omega arith, h))
]

pub decimal-AreDigits : (n : ℕ) → AreDigits (decimal n)
unfolding decimal
decimal-AreDigits n = digits-AreDigits (suc n) n [] tt

read_digit :
    (a d : ℕ) (out : Bytes) → d < 10 → read_digits a ((48 + d) ∷ out) ≡ read_digits (a * 10 + d) out
unfolding read_digits
read_digit a d out h = ground arith

-- Reading the digits of `n` and then `out` is reading `out` behind `n`.
read_digits-digits :
    (fuel n : ℕ) (out : Bytes) → n < fuel → read_digits 0 (digits fuel n out) ≡ read_digits n out
unfolding digits
read_digits-digits zero n out h = absurd (omega arith)
read_digits-digits (suc fuel) n out h = elim (Bool-cases (ltb n 10)) [
  | inl e ↦
      rw (e, digits)
        (read_digit 0 n out (ltb→lt n 10 e) ∙ ap (λ k. read_digits k out) (omega arith))
  | inr e ↦
      rw (e, digits)
        (read_digits-digits fuel (n / 10) ((48 + n % 10) ∷ out) (ground (arith, e))
          ∙ read_digit (n / 10) (n % 10) out (omega arith)
          ∙ ap (λ k. read_digits k out) (omega arith))
]

pub read_digits-decimal : (n : ℕ) → read_digits 0 (decimal n) ≡ n
unfolding decimal read_digits
read_digits-decimal n = read_digits-digits (suc n) n [] (omega arith)

digits-ne-nil :
    (fuel n c : ℕ) (out : Bytes) → (d : ℕ) × (rest : Bytes) × (digits fuel n (c ∷ out) ≡ d ∷ rest)
unfolding digits
digits-ne-nil zero n c out = (c, out, refl)
digits-ne-nil (suc fuel) n c out = elim (Bool-cases (ltb n 10)) [
  | inl e ↦ (48 + n, c ∷ out, rw (e, digits))
  | inr e ↦
      let r = digits-ne-nil fuel (n / 10) (48 + n % 10) (c ∷ out) in (r.0, r.1, rw (e, digits) r.2)
]

-- There is at least one digit.
decimal-cons : (n : ℕ) → (d : ℕ) × (rest : Bytes) × (decimal n ≡ d ∷ rest)
unfolding decimal digits
decimal-cons n = elim (Bool-cases (ltb n 10)) [
  | inl e ↦ (48 + n, [], rw e)
  | inr e ↦ let r = digits-ne-nil n (n / 10) (48 + n % 10) [] in (r.0, r.1, rw e r.2)
]

read_numeral-digits :
    (d : ℕ) (ds : Bytes)
    → AreDigits (d ∷ ds)
    → read_numeral (d ∷ ds) ≡ some (record { negative = false; magnitude = read_digits 0 (d ∷ ds) })
unfolding read_numeral read_signed read_unsigned
read_numeral-digits d ds (a, b, h) = ground arith

-- The text sink reads back the number that was printed.
pub read_numeral-decimal :
    (n : ℕ) → read_numeral (decimal n) ≡ some (record { negative = false; magnitude = n })
read_numeral-decimal n =
    let (d, ds, e) = decimal-cons n in
    ap read_numeral e
    ∙ read_numeral-digits d ds (subst AreDigits e (decimal-AreDigits n))
    ∙ ap (λ (k : ℕ). some (record { negative = false; magnitude = k }))
        (ap (read_digits 0) (sym e) ∙ read_digits-decimal n)

-- Two numbers that print alike are the same.
pub decimal_injective : (m n : ℕ) → decimal m ≡ decimal n → m ≡ n
decimal_injective m n h = sym (read_digits-decimal m) ∙ ap (read_digits 0) h ∙ read_digits-decimal n
