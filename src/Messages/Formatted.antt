-- ===== src/Messages/Formatted.antt =====
-- The text sink on a printed header: its rounds, and the text they come to.
use my_server.Ids.{method_name, class_name}
use my_server.Common.{
  [], none, suc, ◌%◌, ◌∙◌, ap, refl, leb, arith, codes, ◌^◌, some, false, ◌<◌, ◌∷◌, ◌++◌, Bytes, ℕ,
  ◌≡◌,
}
use my_server.Messages.{String, decimal}
use my_server.Messages.Decimal.{AreDigits, decimal-AreDigits, read_numeral-decimal}
use my_server.Publisher.TextSink.{
  named, read_numeral, Formatted, find, until_space, timestamp_marker, class_marker, method_marker,
  format_from, format_timestamp, format_class, format_method, prepend, formatted, stoi, stoull,
}

until_space-digits :
    (text rest : Bytes) → AreDigits text → until_space (text ++ (32 ∷ rest)) ≡ (text, 32 ∷ rest)
unfolding until_space
until_space-digits [] rest h = refl
until_space-digits (c ∷ cs) rest (a, b, h) = rw (until_space-digits cs rest h) (ground arith)

until_space-decimal :
    (n : ℕ) (rest : Bytes) → until_space (decimal n ++ (32 ∷ rest)) ≡ (decimal n, 32 ∷ rest)
until_space-decimal n rest = until_space-digits (decimal n) rest (decimal-AreDigits n)

leb-false : (m n : ℕ) → n < m → leb m n ≡ false
leb-false m n h = ground arith

-- The parsers on what was printed.
stoull-decimal :
    (n : ℕ) (k : ℕ → Formatted) → n < 2 ^ 64 → stoull (read_numeral (decimal n)) k ≡ k n
unfolding stoull
stoull-decimal n k h = rw (read_numeral-decimal n, leb-false (2 ^ 64) n h) refl

stoi-decimal :
    (size n : ℕ) (k : ℕ → Formatted)
    → n < 2 ^ 31
    → n % size ≡ n
    → stoi size (read_numeral (decimal n)) k ≡ k n
unfolding stoi
stoi-decimal size n k h l = rw (read_numeral-decimal n, leb-false (2 ^ 31) n h) (ap k l)

module _ (clock : ℕ → Bytes) where
  format_timestamp-decimal :
      (before rest : Bytes) (n : ℕ) (f : Formatted)
      → n < 2 ^ 64
      → format_timestamp clock (before, decimal n ++ (32 ∷ rest)) f
        ≡ prepend (before ++ timestamp_marker ++ clock n) f
  unfolding format_timestamp
  format_timestamp-decimal before rest n f h =
      rw (until_space-decimal n rest)
        (stoull-decimal n (λ us. prepend (before ++ timestamp_marker ++ clock us) f) h)

  format_class-decimal :
      (before rest : Bytes) (n : ℕ) (name : String) (f : Formatted)
      → class_name n ≡ some name
      → n < 2 ^ 8
      → format_class clock (before, decimal n ++ (32 ∷ rest)) f
        ≡ prepend ((before ++ class_marker) ++ codes name) f
  unfolding format_class
  format_class-decimal before rest n name f e h = rw (until_space-decimal n rest) (
      stoi-decimal (2 ^ 8) n (λ id. named (before ++ class_marker) f (class_name id))
        (omega (arith, h)) (omega (arith, h))
      ∙ ap (named (before ++ class_marker) f) e)

  format_method-decimal :
      (before rest : Bytes) (n : ℕ) (name : String) (f : Formatted)
      → method_name n ≡ some name
      → n < 2 ^ 16
      → format_method clock (before, decimal n ++ (32 ∷ rest)) f
        ≡ prepend ((before ++ method_marker) ++ codes name) f
  unfolding format_method
  format_method-decimal before rest n name f e h = rw (until_space-decimal n rest) (
      stoi-decimal (2 ^ 16) n (λ id. named (before ++ method_marker) f (method_name id))
        (omega (arith, h)) (omega (arith, h))
      ∙ ap (named (before ++ method_marker) f) e)

  -- Rounds of the loop.
  module _ (fuel : ℕ) (c : ℕ) (cs : Bytes) where
    pub format_from-timestamp :
        (before rest : Bytes) (n : ℕ)
        → n < 2 ^ 64
        → find timestamp_marker (c ∷ cs) ≡ some (before, decimal n ++ (32 ∷ rest))
        → format_from clock (suc fuel) (c ∷ cs)
          ≡ prepend (before ++ timestamp_marker ++ clock n) (format_from clock fuel (32 ∷ rest))
    unfolding format_from
    format_from-timestamp before rest n h e =
        rw (e, format_from, until_space-decimal n rest) (format_timestamp-decimal before rest n _ h)

    pub format_from-class :
        (before rest : Bytes) (n : ℕ) (name : String)
        → class_name n ≡ some name
        → n < 2 ^ 8
        → find timestamp_marker (c ∷ cs) ≡ none
        → find class_marker (c ∷ cs) ≡ some (before, decimal n ++ (32 ∷ rest))
        → format_from clock (suc fuel) (c ∷ cs)
          ≡ prepend ((before ++ class_marker) ++ codes name) (format_from clock fuel (32 ∷ rest))
    unfolding format_from
    format_from-class before rest n name k h t e =
        rw (t, format_from)
          (rw (e, until_space-decimal n rest) (format_class-decimal before rest n name _ k h))

    pub format_from-method :
        (before rest : Bytes) (n : ℕ) (name : String)
        → method_name n ≡ some name
        → n < 2 ^ 16
        → find timestamp_marker (c ∷ cs) ≡ none
        → find class_marker (c ∷ cs) ≡ none
        → find method_marker (c ∷ cs) ≡ some (before, decimal n ++ (32 ∷ rest))
        → format_from clock (suc fuel) (c ∷ cs)
          ≡ prepend ((before ++ method_marker) ++ codes name) (format_from clock fuel (32 ∷ rest))
    unfolding format_from
    format_from-method before rest n name k h t u e =
        rw (t, format_from)
          (rw (u, e, until_space-decimal n rest) (format_method-decimal before rest n name _ k h))

    pub format_from-none :
        find timestamp_marker (c ∷ cs) ≡ none
        → find class_marker (c ∷ cs) ≡ none
        → find method_marker (c ∷ cs) ≡ none
        → format_from clock (suc fuel) (c ∷ cs) ≡ formatted (c ∷ cs)
    unfolding format_from
    format_from-none t u v = rw (t, format_from) (rw (u, v) refl)
