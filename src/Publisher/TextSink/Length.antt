-- ===== src/Publisher/TextSink/Length.antt =====
-- TextSink::format_impl ends: each round takes a marker off the line.
use my_server.Ids.{class_name, method_name}
use my_server.Common.{
  codes, ℕ, zero, suc, ◌+◌, ◌<◌, ◌≤◌, ◌≡◌, ◌≢◌, Option, none, some, Bool, true, false, [], ◌∷◌,
  ◌++◌, Bytes, arith, length, Option-cases, inl, inr, if◌then◌else◌, ◌==◌, Bool-cases,
}
use my_server.Publisher.TextSink.{
  invalid_argument, out_of_range, bad_index, out_of_range, String, Formatted, formatted,
  out_of_fuel, strip, find, until_space, stoull, stoi, read_numeral, Numeral, prepend, named,
  format_timestamp, format_class, format_method, format_from, timestamp_marker, class_marker,
  method_marker,
}

strip-length : (p line r : Bytes) → strip p line ≡ some r → length line ≡ length p + length r
unfolding strip
strip-length [] line r h = ground arith
strip-length (p ∷ ps) [] r h = absurd (cc h)
strip-length (p ∷ ps) (c ∷ cs) r h = elim (Bool-cases (p == c)) [
  | inl e ↦ omega (arith, strip-length ps cs r (rw e at h))
  | inr e ↦ absurd (ground arith)
]

-- A marker that is found is in the line.
pub find-length :
    (m line a b : Bytes) → find m line ≡ some (a, b) → length line ≡ length a + length m + length b
unfolding find
find-length m [] a b h = elim (Option-cases (strip m [])) [
  | inl z ↦ absurd (ground arith)
  | inr (r, e) ↦ ground (arith, strip-length m [] r e)
]
find-length m (c ∷ cs) a b h = elim (Option-cases (strip m (c ∷ cs))) [
  | inr (r, e) ↦ ground (arith, strip-length m (c ∷ cs) r e)
  | inl z ↦ elim (Option-cases (find m cs)) [
    | inl y ↦ absurd (ground arith)
    | inr ((x, y), e) ↦ ground (arith, find-length m cs x y e)
  ]
]

pub until_space-length : (line : Bytes) → length (until_space line).1 ≤ length line
unfolding until_space
until_space-length [] = omega arith
until_space-length (c ∷ cs) = ground (arith, until_space-length cs)

-- Formatting one number runs out of fuel only if the rest does.
pub Ends : Formatted → Type 0
Ends f = f ≢ out_of_fuel

prepend-Ends : (text : Bytes) (f : Formatted) → Ends f → Ends (prepend text f)
unfolding Ends
prepend-Ends text (formatted r) h = λ e. cc e
prepend-Ends text invalid_argument h = λ e. cc e
prepend-Ends text out_of_range h = λ e. cc e
prepend-Ends text bad_index h = λ e. cc e
prepend-Ends text out_of_fuel h = h

if-Ends : (b : Bool) (f g : Formatted) → Ends f → Ends g → Ends (if b then f else g)
if-Ends true f g h k = h
if-Ends false f g h k = k

out_of_range-Ends : Ends out_of_range
unfolding Ends
out_of_range-Ends = λ e. cc e

stoull-Ends : (o : Option Numeral) (k : ℕ → Formatted) → ((n : ℕ) → Ends (k n)) → Ends (stoull o k)
unfolding stoull Ends
stoull-Ends none k h = λ e. cc e
stoull-Ends (some n) k h = if-Ends _ out_of_range _ out_of_range-Ends (h _)

stoi-Ends :
    (size : ℕ) (o : Option Numeral) (k : ℕ → Formatted)
    → ((n : ℕ) → Ends (k n))
    → Ends (stoi size o k)
unfolding stoi Ends
stoi-Ends size none k h = λ e. cc e
stoi-Ends size (some n) k h =
    if-Ends n.negative _ _ (if-Ends _ out_of_range _ out_of_range-Ends (h _))
      (if-Ends _ out_of_range _ out_of_range-Ends (h _))

named-Ends :
    (text : Bytes) (f : Formatted) (name : Option String) → Ends f → Ends (named text f name)
unfolding Ends
named-Ends text f none h = λ e. cc e
named-Ends text f (some name) h = prepend-Ends (text ++ codes name) f h

module _ (format_timestamp_us : ℕ → Bytes) where
  format_timestamp-Ends :
      (found : Bytes × Bytes) (f : Formatted)
      → Ends f
      → Ends (format_timestamp format_timestamp_us found f)
  unfolding format_timestamp
  format_timestamp-Ends (a, b) f h =
      stoull-Ends (read_numeral (until_space b).0) _
        (λ us. prepend-Ends (a ++ timestamp_marker ++ format_timestamp_us us) f h)

  format_class-Ends :
      (found : Bytes × Bytes) (f : Formatted)
      → Ends f
      → Ends (format_class format_timestamp_us found f)
  unfolding format_class
  format_class-Ends (a, b) f h =
      stoi-Ends 256 (read_numeral (until_space b).0) _
        (λ id. named-Ends (a ++ class_marker) f (class_name id) h)

  format_method-Ends :
      (found : Bytes × Bytes) (f : Formatted)
      → Ends f
      → Ends (format_method format_timestamp_us found f)
  unfolding format_method
  format_method-Ends (a, b) f h =
      stoi-Ends 65536 (read_numeral (until_space b).0) _
        (λ id. named-Ends (a ++ method_marker) f (method_name id) h)

  -- What is left after a marker and its number is shorter.
  shorter :
      (m line a b : Bytes)
      → find m line ≡ some (a, b)
      → 0 < length m
      → length (until_space b).1 < length line
  shorter m line a b h pos = omega (arith, find-length m line a b h, until_space-length b)

  -- Formatting a line ends, whatever the line is: with fuel beyond its length the rounds of the loop
  -- come to a text, an exception of the number parsers or a read out of range, never to the end of the
  -- fuel.
  pub format_from_ends :
      (fuel : ℕ) (line : Bytes)
      → length line < fuel
      → format_from format_timestamp_us fuel line ≢ out_of_fuel
  unfolding format_from Ends
  format_from_ends zero line h = absurd (omega arith)
  format_from_ends (suc fuel) [] h = λ e. cc e
  format_from_ends (suc fuel) (c ∷ cs) h = elim (Option-cases (find timestamp_marker (c ∷ cs))) [
    | inr ((a, b), e) ↦
        rw (e, format_from)
          (format_timestamp-Ends (a, b) _
            (format_from_ends fuel (until_space b).1
              (omega (arith, shorter timestamp_marker (c ∷ cs) a b e (omega arith), h))))
    | inl x ↦ elim (Option-cases (find class_marker (c ∷ cs))) [
      | inr ((a, b), e) ↦
          rw (x, format_from)
            (rw e (
              format_class-Ends (a, b) _
                (format_from_ends fuel (until_space b).1
                  (omega (arith, shorter class_marker (c ∷ cs) a b e (omega arith), h)))))
      | inl y ↦ elim (Option-cases (find method_marker (c ∷ cs))) [
        | inr ((a, b), e) ↦
            rw (x, format_from)
              (rw y (
                rw e (
                  format_method-Ends (a, b) _
                    (format_from_ends fuel (until_space b).1
                      (omega (arith, shorter method_marker (c ∷ cs) a b e (omega arith), h))))))
        | inl z ↦ rw (x, format_from) (rw y (rw z (λ k. cc k)))
      ]
    ]
  ]
