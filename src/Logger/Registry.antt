-- ===== src/Logger/Registry.antt =====
-- modules/logger/include/logger/registry: header_args.hpp, payload_register.hpp and builder.hpp. A
-- tuple is the list of its values, and a call that a `static_assert` refuses gives `none`.
pub mod Fields
pub mod Builds
mod Tests
use my_server.Common.{ℕ, Option, none, some, List, [], ◌∷◌, ◌++◌, Bytes}
use my_server.Messages.{
  text_type, u16_type, u32_type, u64_type, severity_type, MsgTag, generic, request, FieldType,
  Value, Header, RequestPayload, Field, header_fields, request_fields, print_header,
}

-- `pack_header_args`: forwarding and decay leave the values as they are.
abbrev pub pack_header_args : List Value → List Value
pack_header_args args = args

-- PayloadRegister. GenericPayload has the fields of its base alone.
abbrev pub PayloadType : MsgTag → Type 0
PayloadType generic = Header
PayloadType request = RequestPayload

-- The types in log_payloads.def, and in both field lists.
abbrev pub header_types : List FieldType
header_types = severity_type ∷ u64_type ∷ u32_type ∷ u32_type ∷ u16_type ∷ u16_type ∷ u16_type ∷ []

abbrev pub args_tuple_type : MsgTag → List FieldType
args_tuple_type generic = header_types
args_tuple_type request = header_types ++ (u64_type ∷ text_type ∷ [])

unfoldable pub field_ptrs : (tag : MsgTag) → List (Field (PayloadType tag))
unfolding header_fields request_fields
field_ptrs generic = header_fields (λ p. p) (λ h p. h)
field_ptrs request =
    header_fields (λ p. p.header) (λ h p. record p { header = h }) ++ request_fields

-- `P payload{}`.
abbrev pub empty_header : Header
empty_header = record {
  severity = 0;
  timestamp = 0;
  thread_id = 0;
  request_id = 0;
  class_id = 0;
  method_id = 0;
  schema_version = 0;
}

abbrev pub empty_payload : (tag : MsgTag) → PayloadType tag
empty_payload generic = empty_header
empty_payload request = record { header = empty_header; req_unique_id = 0; path = [] }

-- `debug_impl` of a payload, which prints no more than the header with either tag.
unfoldable pub debug_impl : (tag : MsgTag) → PayloadType tag → Bytes
unfolding print_header
debug_impl generic p = print_header generic p
debug_impl request p = print_header request p.header

-- `assign_fields`, with the test of each argument's type.
unfoldable pub assign_fields : {P : Type 0} → List (Field P) → List Value → P → Option P
assign_fields [] [] p = some p
assign_fields [] (v ∷ vs) p = none
assign_fields (f ∷ fs) [] p = none
assign_fields (f ∷ fs) (v ∷ vs) p = elim (f.store v p) [
  | none ↦ none
  | some q ↦ assign_fields fs vs q
]

-- `Builder::build`.
unfoldable pub build : (tag : MsgTag) → List Value → Option (PayloadType tag)
unfolding assign_fields
build tag args = assign_fields (field_ptrs tag) args (empty_payload tag)
