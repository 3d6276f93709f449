-- ===== src/Messages/Tests.antt =====
-- Runs of the messages, and the theorems about them at concrete inputs.
use my_server.Common.{Bytes, ℕ, ◌≡◌, refl, codes, arith}
use my_server.Ids.{class_name, method_name}
use my_server.Messages.{
  Header, print_header, print_request, print_fields, header_fields, request_fields, print_value,
  decimal, digits, severity_text, tag_index, request, generic,
}
use my_server.Messages.Layout.{fields_size, fields_end, pad_bytes}
use my_server.Messages.Width.{InRange}
use my_server.Messages.HeaderText.{text_sink-print_header}
use my_server.Messages.Injective.{print_header_injective}
use my_server.Publisher.Policies.{text_sink}
use my_server.Publisher.TextSink.{formatted}

abbrev sample : Header
sample = record {
  severity = 7;
  timestamp = 999999;
  thread_id = 1;
  request_id = 42;
  class_id = 1;
  method_id = 2;
  schema_version = 1;
}

header_run :
    print_header generic sample
    ≡ codes
        "[tag=0] severity=Unknown(7) timestamp=999999 thread_id=1 request_id=42 class_id=1 method_id=2 schema_version=1 "
unfolding print_header print_fields header_fields print_value decimal digits severity_text tag_index
header_run = refl

request_run :
    print_request (record { header = sample; req_unique_id = 100; path = codes "/api" })
    ≡ codes
        "[tag=1] severity=Unknown(7) timestamp=999999 thread_id=1 request_id=42 class_id=1 method_id=2 schema_version=1 req_unique_id=100 path=/api "
unfolding print_request print_header print_fields header_fields request_fields print_value decimal
    digits severity_text tag_index
request_run = refl

-- A payload with the tag Generic is padded to 64 bytes.
padding_run : (fields_size ≡ 32) × (pad_bytes generic ≡ 32) × (pad_bytes request ≡ 0)
unfolding fields_size fields_end header_fields pad_bytes
padding_run = (refl, refl, refl)

sample-InRange : InRange sample
sample-InRange = record {
  severity-lt = omega arith;
  timestamp-lt = omega arith;
  thread_id-lt = omega arith;
  request_id-lt = omega arith;
  class_id-lt = omega arith;
  method_id-lt = omega arith;
  schema_version-lt = omega arith;
}

abbrev clock : ℕ → Bytes
clock us = codes "T"

text_sink-print_header_example :
    text_sink clock (print_header request sample)
    ≡ formatted (
        codes
          "[tag=1] severity=Unknown(7) timestamp=T thread_id=1 request_id=42 class_id=Handler method_id=terminateThreads schema_version=1 ")
unfolding class_name method_name decimal digits severity_text tag_index
text_sink-print_header_example =
    text_sink-print_header clock sample sample-InRange "Handler" "terminateThreads" refl refl
      request

print_header_injective_example : (request ≡ request) × (sample ≡ record sample { severity = 7 })
print_header_injective_example =
    print_header_injective request request sample (record sample { severity = 7 }) refl
