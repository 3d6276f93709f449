-- ===== src/Logger/Registry/Tests.antt =====
-- Runs of the builder, and the theorems about it at concrete inputs.
use my_server.Common.{[], ◌∷◌, List, ◌≡◌, refl, some, none, ◌↔◌, map}
use my_server.Messages.{
  header_fields, request_fields, u16_value, u32_value, u64_value, Header, Value, severity_value,
  generic, type_of,
}
use my_server.Logger.Registry.{
  request, request_fields, header_fields, build, assign_fields, field_ptrs, args_tuple_type,
}
use my_server.Logger.Registry.Builds.{builds_exactly, build-types, payload_args}

abbrev sample_args : List Value
sample_args =
    severity_value 1
    ∷ u64_value 5
    ∷ u32_value 6
    ∷ u32_value 7
    ∷ u16_value 0
    ∷ u16_value 3
    ∷ u16_value 1
    ∷ []

abbrev sample : Header
sample = record {
  severity = 1;
  timestamp = 5;
  thread_id = 6;
  request_id = 7;
  class_id = 0;
  method_id = 3;
  schema_version = 1;
}

build_runs :
    (build generic sample_args ≡ some sample)
    × (build request sample_args ≡ none)
    × (build generic (u32_value 1 ∷ []) ≡ none)
unfolding build assign_fields field_ptrs header_fields request_fields
build_runs = (refl, refl, refl)

builds_exactly_example :
    (build generic sample_args ≡ some sample) ↔ (sample_args ≡ payload_args generic sample)
builds_exactly_example = builds_exactly generic sample_args sample

build-types_example :
    ((p : Header) × (build generic sample_args ≡ some p))
    ↔ (map type_of sample_args ≡ args_tuple_type generic)
build-types_example = build-types generic sample_args
