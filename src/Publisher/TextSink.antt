-- ===== src/Publisher/TextSink.antt =====
-- TextSink of modules/publisher/src/sink_publisher.cpp. `format_timestamp_us` prints local time, which
-- the library and the time zone decide: it is a parameter.
pub mod Length
pub mod Before
mod Tests
use Prim.Native.String.{String}
use my_server.Common.{
  ℕ, zero, suc, ◌+◌, ◌-◌, ◌*◌, ◌%◌, ◌^◌, Option, none, some, Bool, true, false, ◌&&◌, ◌||◌, List,
  [], ◌∷◌, ◌++◌, Bytes, codes, if◌then◌else◌, ltb, leb, ◌==◌,
}
use my_server.Ids.{class_name, method_name}

-- The rest after a prefix.
unfoldable pub strip : Bytes → Bytes → Option Bytes
strip [] line = some line
strip (p ∷ ps) [] = none
strip (p ∷ ps) (c ∷ cs) = let rest = strip ps cs in if p == c then rest else none

abbrev pub in_front : ℕ → Option (Bytes × Bytes) → Option (Bytes × Bytes)
in_front c none = none
in_front c (some (before, after)) = some (c ∷ before, after)

-- `find` of a marker: the text before it and the text after it.
unfoldable pub find : Bytes → Bytes → Option (Bytes × Bytes)
find marker [] = elim (strip marker []) [ some rest ↦ some ([], rest) | none ↦ none ]
find marker (c ∷ cs) =
    let later = find marker cs in
    elim (strip marker (c ∷ cs)) [ some rest ↦ some ([], rest) | none ↦ in_front c later ]

-- `find(' ')`: the number up to the space, and the line from the space on.
unfoldable pub until_space : Bytes → Bytes × Bytes
until_space [] = ([], [])
until_space (c ∷ cs) =
    let (num, rest) = until_space cs in if c == 32 then ([], c ∷ cs) else (c ∷ num, rest)

-- What `stoull` and `stoi` read: white space, a sign, digits. `none` where there is no digit.
pub record Numeral : Type 0 where
  pub negative : Bool
  pub magnitude : ℕ

abbrev pub is_digit : ℕ → Bool
is_digit c = leb 48 c && leb c 57

abbrev pub is_space : ℕ → Bool
is_space c = c == 32 || (leb 9 c && leb c 13)

unfoldable pub read_digits : ℕ → Bytes → ℕ
read_digits n [] = n
read_digits n (c ∷ cs) =
    let more = read_digits (n * 10 + (c - 48)) cs in if is_digit c then more else n

unfoldable pub read_unsigned : Bool → Bytes → Option Numeral
unfolding read_digits
read_unsigned negative [] = none
read_unsigned negative (c ∷ cs) =
    if is_digit c
    then some (record { negative = negative; magnitude = read_digits 0 (c ∷ cs) })
    else none

unfoldable pub read_signed : Bytes → Option Numeral
unfolding read_unsigned
read_signed [] = none
read_signed (c ∷ cs) =
    if c == 45
    then read_unsigned true cs
    else if c == 43
    then read_unsigned false cs
    else read_unsigned false (c ∷ cs)

unfoldable pub read_numeral : Bytes → Option Numeral
unfolding read_signed
read_numeral [] = none
read_numeral (c ∷ cs) =
    let rest = read_numeral cs in if is_space c then rest else read_signed (c ∷ cs)

-- What formatting comes to. `invalid_argument` and `out_of_range` are exceptions of the library,
-- `bad_index` is a table read out of range.
pub data Formatted : Type 0 where
  formatted : Bytes → Formatted
  invalid_argument out_of_range bad_index out_of_fuel : Formatted

-- `stoull`, which takes a negative number modulo 2 ^ 64.
unfoldable pub stoull : Option Numeral → (ℕ → Formatted) → Formatted
stoull none k = invalid_argument
stoull (some n) k =
    if leb (2 ^ 64) n.magnitude
    then out_of_range
    else k (if n.negative then (2 ^ 64 - n.magnitude) % 2 ^ 64 else n.magnitude)

-- `stoi`, then the cast to an enum of `size` values.
unfoldable pub stoi : ℕ → Option Numeral → (ℕ → Formatted) → Formatted
stoi size none k = invalid_argument
stoi size (some n) k =
    if n.negative
    then (if ltb (2 ^ 31) n.magnitude then out_of_range else k ((2 ^ 32 - n.magnitude) % size))
    else if leb (2 ^ 31) n.magnitude
    then out_of_range
    else k (n.magnitude % size)

abbrev pub prepend : Bytes → Formatted → Formatted
prepend text (formatted rest) = formatted (text ++ rest)
prepend text invalid_argument = invalid_argument
prepend text out_of_range = out_of_range
prepend text bad_index = bad_index
prepend text out_of_fuel = out_of_fuel

abbrev pub timestamp_marker : Bytes
timestamp_marker = codes "timestamp="

abbrev pub class_marker : Bytes
class_marker = codes "class_id="

abbrev pub method_marker : Bytes
method_marker = codes "method_id="

-- A table's name for an id, then what follows.
abbrev pub named : Bytes → Formatted → Option String → Formatted
named text rest none = bad_index
named text rest (some name) = prepend (text ++ codes name) rest

module _ (format_timestamp_us : ℕ → Bytes) where
  unfoldable pub format_timestamp : Bytes × Bytes → Formatted → Formatted
  unfolding stoull read_numeral until_space
  format_timestamp (before, after) rest =
      stoull (read_numeral (until_space after).0)
        (λ us. prepend (before ++ timestamp_marker ++ format_timestamp_us us) rest)

  unfoldable pub format_class : Bytes × Bytes → Formatted → Formatted
  unfolding stoi read_numeral until_space class_name
  format_class (before, after) rest =
      stoi (2 ^ 8) (read_numeral (until_space after).0)
        (λ id. named (before ++ class_marker) rest (class_name id))

  unfoldable pub format_method : Bytes × Bytes → Formatted → Formatted
  unfolding stoi read_numeral until_space method_name
  format_method (before, after) rest =
      stoi (2 ^ 16) (read_numeral (until_space after).0)
        (λ id. named (before ++ method_marker) rest (method_name id))

  -- `format_impl` from `pos` on: `line` is what is left. The tests `class_pos < ts_pos`,
  -- `method_pos < ts_pos` and `method_pos < class_pos` are made only where the other marker was not
  -- found, so they decide nothing.
  unfoldable pub format_from : ℕ → Bytes → Formatted
  unfolding find
  format_from zero line = out_of_fuel
  format_from (suc fuel) [] = formatted []
  format_from (suc fuel) (c ∷ cs) = elim (find timestamp_marker (c ∷ cs)) [
    | some found ↦ format_timestamp found (format_from fuel (until_space found.1).1)
    | none ↦ elim (find class_marker (c ∷ cs)) [
      | some found ↦ format_class found (format_from fuel (until_space found.1).1)
      | none ↦ elim (find method_marker (c ∷ cs)) [
        | some found ↦ format_method found (format_from fuel (until_space found.1).1)
        | none ↦ formatted (c ∷ cs)
      ]
    ]
  ]
