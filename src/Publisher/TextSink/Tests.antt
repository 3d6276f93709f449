-- ===== src/Publisher/TextSink/Tests.antt =====
-- Runs of TextSink, and the theorems about it at concrete inputs; a timestamp prints as `T`.
use my_server.Common.{ℕ, ◌≡◌, ◌≢◌, refl, Bytes, codes, arith}
use my_server.Ids.{class_name, method_name}
use my_server.Publisher.TextSink.{
  formatted, bad_index, invalid_argument, out_of_fuel, format_from, find, strip, until_space,
  read_numeral, read_signed, read_unsigned, read_digits, stoull, stoi, format_timestamp,
  format_class, format_method,
}
use my_server.Publisher.TextSink.Length.{format_from_ends}

abbrev clock : ℕ → Bytes
clock us = codes "T"

names_run :
    format_from clock 60 (codes "timestamp=12 class_id=1 method_id=4 end")
    ≡ formatted (codes "timestamp=T class_id=Handler method_id=handlingEvent end")
unfolding format_from find strip until_space read_numeral read_signed read_unsigned read_digits
    stoull stoi format_timestamp format_class format_method class_name method_name
names_run = refl

-- An id before the timestamp stays a number.
early_runs :
    format_from clock 60 (codes "class_id=1 timestamp=12")
    ≡ formatted (codes "class_id=1 timestamp=T")
unfolding format_from find strip until_space read_numeral read_signed read_unsigned read_digits
    stoull format_timestamp
early_runs = refl

errors_run :
    (format_from clock 60 (codes "class_id=9") ≡ bad_index)
    × (format_from clock 60 (codes "timestamp=x") ≡ invalid_argument)
unfolding format_from find strip until_space read_numeral read_signed read_unsigned read_digits
    stoull stoi format_timestamp format_class class_name
errors_run = (refl, refl)

format_from_ends_example : format_from clock 11 (codes "class_id=9") ≢ out_of_fuel
format_from_ends_example = format_from_ends clock 11 (codes "class_id=9") (omega arith)
