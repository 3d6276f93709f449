-- ===== src/Messages.antt =====
-- modules/common/include/common/messages: log_message.hpp with log_message.def, payloads/payloads.hpp with
-- the field lists log_payloads.def and log_requestpayload.def, and traits.hpp. An integer field is its
-- number, and a `string_view` the bytes that it views.
pub mod Layout
pub mod Decimal
pub mod Width
pub mod Named
pub mod Formatted
pub mod HeaderText
pub mod Injective
mod Tests
use Prim.Native.String.{String}
use my_server.Common.{
  ◌*◌, ℕ, zero, suc, ◌+◌, ◌-◌, ◌/◌, ◌%◌, Option, none, some, List, [], ◌∷◌, ◌++◌, Bytes, codes,
  if◌then◌else◌, ltb, ◌==◌,
}

pub data MsgTag : Type 0 where
  generic request : MsgTag

-- `static_cast<int>(type_id)`.
unfoldable pub tag_index : MsgTag → ℕ
tag_index generic = 0
tag_index request = 1

-- What `operator<<` of the library prints for an unsigned integer: the digits of `n` before `out`, on
-- fuel.
unfoldable pub digits : ℕ → ℕ → Bytes → Bytes
digits zero n out = out
digits (suc fuel) n out =
    let more = digits fuel (n / 10) ((48 + n % 10) ∷ out) in
    if ltb n 10 then (48 + n) ∷ out else more

unfoldable pub decimal : ℕ → Bytes
unfolding digits
decimal n = digits (suc n) n []

-- `operator<<` of Severity, whose values are the numbers of a byte.
unfoldable pub severity_text : ℕ → Bytes
severity_text s =
    if s == 0
    then codes "Info"
    else if s == 1
    then codes "Warn"
    else if s == 2
    then codes "Error"
    else codes "Unknown(" ++ (decimal s ++ codes ")")

-- The types of fields, and a value of one.
pub data FieldType : Type 0 where
  severity_type u64_type u32_type u16_type text_type : FieldType

pub data Value : Type 0 where
  severity_value u64_value u32_value u16_value : ℕ → Value
  text_value : Bytes → Value

abbrev pub type_of : Value → FieldType
type_of (severity_value n) = severity_type
type_of (u64_value n) = u64_type
type_of (u32_value n) = u32_type
type_of (u16_value n) = u16_type
type_of (text_value t) = text_type

unfoldable pub print_value : Value → Bytes
print_value (severity_value s) = severity_text s
print_value (u64_value n) = decimal n
print_value (u32_value n) = decimal n
print_value (u16_value n) = decimal n
print_value (text_value t) = t

-- The fields of PayloadBase, which log_payloads.def lists.
pub record Header : Type 0 where
  pub severity : ℕ
  pub timestamp : ℕ
  pub thread_id : ℕ
  pub request_id : ℕ
  pub class_id : ℕ
  pub method_id : ℕ
  pub schema_version : ℕ

-- RequestPayload, with the fields of log_requestpayload.def.
pub record RequestPayload : Type 0 where
  pub header : Header
  pub req_unique_id : ℕ
  pub path : Bytes

-- An entry of a field list in a class: its type and name, and the member that it stands for. `store`
-- gives `none` for a value of another type.
pub record Field (P : Type 0) : Type 0 where
  pub type : FieldType
  pub name : String
  pub load : P → Value
  pub store : Value → P → Option P

module _ {P : Type 0} (name : String) (get : P → ℕ) (set : ℕ → P → P) where
  abbrev pub severity_field : Field P
  severity_field = record {
    type = severity_type;
    name = name;
    load = λ p. severity_value (get p);
    store = λ v p. elim v [ severity_value n ↦ some (set n p) | _ ↦ none ];
  }

  abbrev pub u64_field : Field P
  u64_field = record {
    type = u64_type;
    name = name;
    load = λ p. u64_value (get p);
    store = λ v p. elim v [ u64_value n ↦ some (set n p) | _ ↦ none ];
  }

  abbrev pub u32_field : Field P
  u32_field = record {
    type = u32_type;
    name = name;
    load = λ p. u32_value (get p);
    store = λ v p. elim v [ u32_value n ↦ some (set n p) | _ ↦ none ];
  }

  abbrev pub u16_field : Field P
  u16_field = record {
    type = u16_type;
    name = name;
    load = λ p. u16_value (get p);
    store = λ v p. elim v [ u16_value n ↦ some (set n p) | _ ↦ none ];
  }

-- log_payloads.def, for a class with this base.
unfoldable pub header_fields : {P : Type 0} → (P → Header) → (Header → P → P) → List (Field P)
header_fields base with_base =
    severity_field "severity" (λ p. (base p).severity)
      (λ n p. with_base (record (base p) { severity = n }) p)
    ∷ u64_field "timestamp" (λ p. (base p).timestamp)
        (λ n p. with_base (record (base p) { timestamp = n }) p)
    ∷ u32_field "thread_id" (λ p. (base p).thread_id)
        (λ n p. with_base (record (base p) { thread_id = n }) p)
    ∷ u32_field "request_id" (λ p. (base p).request_id)
        (λ n p. with_base (record (base p) { request_id = n }) p)
    ∷ u16_field "class_id" (λ p. (base p).class_id)
        (λ n p. with_base (record (base p) { class_id = n }) p)
    ∷ u16_field "method_id" (λ p. (base p).method_id)
        (λ n p. with_base (record (base p) { method_id = n }) p)
    ∷ u16_field "schema_version" (λ p. (base p).schema_version)
        (λ n p. with_base (record (base p) { schema_version = n }) p)
    ∷ []

abbrev pub path_field : Field RequestPayload
path_field = record {
  type = text_type;
  name = "path";
  load = λ p. text_value p.path;
  store = λ v p. elim v [ text_value t ↦ some (record p { path = t }) | _ ↦ none ];
}

-- log_requestpayload.def.
unfoldable pub request_fields : List (Field RequestPayload)
request_fields =
    u64_field "req_unique_id" (λ p. p.req_unique_id) (λ n p. record p { req_unique_id = n })
    ∷ path_field
    ∷ []

-- `os << #F << '=' << F << ' '` for each field.
unfoldable pub print_fields : {P : Type 0} → List (Field P) → P → Bytes
print_fields [] p = []
print_fields (f ∷ fs) p =
    codes f.name ++ (61 ∷ (print_value (f.load p) ++ (32 ∷ print_fields fs p)))

-- `print_header` of a payload with this tag.
unfoldable pub print_header : MsgTag → Header → Bytes
unfolding tag_index header_fields print_fields print_value
print_header tag h =
    codes "[tag="
    ++ (decimal (tag_index tag)
        ++ (codes "] " ++ print_fields (header_fields (λ p. p) (λ p q. p)) h))

-- `debug_impl` of RequestPayload in traits.hpp.
unfoldable pub print_request : RequestPayload → Bytes
unfolding request_fields print_fields print_value
print_request r = print_header request r.header ++ print_fields request_fields r
