-- ===== src/Publisher/TextSink/Before.antt =====
-- TextSink::format_impl: what stands before a timestamp.
use my_server.Common.{
  ℕ, zero, suc, ◌≡◌, Option, none, some, Bool, true, false, [], ◌∷◌, ◌++◌, Bytes, arith,
  if◌then◌else◌, append_assoc,
}
use my_server.Publisher.TextSink.{
  Formatted, formatted, out_of_fuel, invalid_argument, out_of_range, bad_index, find, strip,
  until_space, stoull, read_numeral, Numeral, prepend, format_timestamp, format_from,
  timestamp_marker,
}

-- A text that starts with `before`.
abbrev pub StartsWith : Bytes → Bytes → Type 0
StartsWith before text = (rest : Bytes) × (text ≡ before ++ rest)

prepend-StartsWith :
    (a m b : Bytes) (f : Formatted) (out : Bytes)
    → prepend (a ++ m ++ b) f ≡ formatted out
    → StartsWith a out
prepend-StartsWith a m b (formatted r) out h =
    (m ++ (b ++ r), ground (arith, append_assoc (a ++ m) b r, append_assoc a m (b ++ r)))
prepend-StartsWith a m b invalid_argument out h = absurd (cc h)
prepend-StartsWith a m b out_of_range out h = absurd (cc h)
prepend-StartsWith a m b bad_index out h = absurd (cc h)
prepend-StartsWith a m b out_of_fuel out h = absurd (cc h)

else_formatted :
    (b : Bool) (f : Formatted) (out : Bytes)
    → (if b then out_of_range else f) ≡ formatted out
    → f ≡ formatted out
else_formatted true f out h = absurd (cc h)
else_formatted false f out h = h

-- A chain through `stoull` that ends in a text went on with some number.
stoull-formatted :
    (o : Option Numeral) (k : ℕ → Formatted) (out : Bytes)
    → stoull o k ≡ formatted out
    → (n : ℕ) × (k n ≡ formatted out)
unfolding stoull
stoull-formatted none k out h = absurd (cc h)
stoull-formatted (some n) k out h = (_, else_formatted _ _ out h)

module _ (format_timestamp_us : ℕ → Bytes) where
  -- Where a line has a timestamp and formatting gives a text, everything before the first timestamp
  -- stands in it as it was, class and method ids included: they are not replaced by names.
  pub before_timestamp :
      (fuel : ℕ) (line before after out : Bytes)
      → find timestamp_marker line ≡ some (before, after)
      → format_from format_timestamp_us fuel line ≡ formatted out
      → StartsWith before out
  unfolding format_from format_timestamp find strip
  before_timestamp zero line before after out e h = absurd (cc h)
  before_timestamp (suc fuel) [] before after out e h = absurd (cc e)
  before_timestamp (suc fuel) (c ∷ cs) before after out e h =
      let s =
        stoull-formatted (read_numeral (until_space after).0) _ out (rw (e, format_from) at h) in
      prepend-StartsWith before timestamp_marker (format_timestamp_us s.0) _ out s.1
