-- ===== src/Logger/Registry/Builds.antt =====
-- Builder: what builds, and what it builds.
use my_server.Logger.Registry.Fields.{field_ptrs-types, field_ptrs-AllTyped, assign_fields-types}
use my_server.Common.{Bytes, ap, subst, ◌∙◌, ◌↔◌, refl, some, map, [], ◌≡◌, ◌∷◌, List, ℕ}
use my_server.Messages.{
  text_value, u16_value, u32_value, u64_value, severity_value, request, generic, header_fields,
  request_fields, type_of, MsgTag,
}
use my_server.Logger.Registry.{
  text_type, u16_type, u32_type, u64_type, severity_type, empty_payload, FieldType, Header,
  RequestPayload, Value, request_fields, Field, header_fields, build, field_ptrs, args_tuple_type,
  PayloadType, assign_fields,
}

-- The values of a payload's fields, in the order of the registry.
abbrev pub load_all : {P : Type 0} → List (Field P) → P → List Value
load_all fs p = map (λ f. f.load p) fs

abbrev pub payload_args : (tag : MsgTag) → PayloadType tag → List Value
unfolding field_ptrs
payload_args tag p = load_all (field_ptrs tag) p

-- Building from the values of a payload gives the payload.
pub build-payload_args :
    (tag : MsgTag) (p : PayloadType tag) → build tag (payload_args tag p) ≡ some p
unfolding build assign_fields field_ptrs header_fields request_fields
build-payload_args generic p = refl
build-payload_args request p = refl

-- Values of some types, in order.
data Fits : List FieldType → List Value → Type 0 where
  no_values : Fits [] []
  severity_fits :
      {ts : List FieldType} {vs : List Value} (n : ℕ)
      → Fits ts vs
      → Fits (severity_type ∷ ts) (severity_value n ∷ vs)
  u64_fits :
      {ts : List FieldType} {vs : List Value} (n : ℕ)
      → Fits ts vs
      → Fits (u64_type ∷ ts) (u64_value n ∷ vs)
  u32_fits :
      {ts : List FieldType} {vs : List Value} (n : ℕ)
      → Fits ts vs
      → Fits (u32_type ∷ ts) (u32_value n ∷ vs)
  u16_fits :
      {ts : List FieldType} {vs : List Value} (n : ℕ)
      → Fits ts vs
      → Fits (u16_type ∷ ts) (u16_value n ∷ vs)
  text_fits :
      {ts : List FieldType} {vs : List Value} (t : Bytes)
      → Fits ts vs
      → Fits (text_type ∷ ts) (text_value t ∷ vs)

fits : (args : List Value) → Fits (map type_of args) args
fits [] = no_values
fits (severity_value n ∷ vs) = severity_fits n (fits vs)
fits (u64_value n ∷ vs) = u64_fits n (fits vs)
fits (u32_value n ∷ vs) = u32_fits n (fits vs)
fits (u16_value n ∷ vs) = u16_fits n (fits vs)
fits (text_value t ∷ vs) = text_fits t (fits vs)

Fits-header :
    (args : List Value)
    → Fits (args_tuple_type generic) args
    → (p : Header) × (args ≡ payload_args generic p)
unfolding field_ptrs header_fields
Fits-header args
      (severity_fits a
        (u64_fits b (u32_fits c (u32_fits d (u16_fits e (u16_fits f (u16_fits g no_values))))))) =
    (
      record {
        severity = a;
        timestamp = b;
        thread_id = c;
        request_id = d;
        class_id = e;
        method_id = f;
        schema_version = g;
      },
      refl,
    )

Fits-request :
    (args : List Value)
    → Fits (args_tuple_type request) args
    → (p : RequestPayload) × (args ≡ payload_args request p)
unfolding field_ptrs header_fields request_fields
Fits-request args
      (severity_fits a (
        u64_fits b (
          u32_fits c (
            u32_fits d
              (u16_fits e (u16_fits f (u16_fits g (u64_fits i (text_fits t no_values))))))))) =
    (
      record {
        header = record {
          severity = a;
          timestamp = b;
          thread_id = c;
          request_id = d;
          class_id = e;
          method_id = f;
          schema_version = g;
        };
        req_unique_id = i;
        path = t;
      },
      refl,
    )

Fits-args :
    (tag : MsgTag) (args : List Value)
    → Fits (args_tuple_type tag) args
    → (p : PayloadType tag) × (args ≡ payload_args tag p)
Fits-args generic args h = Fits-header args h
Fits-args request args h = Fits-request args h

-- Arguments build a payload exactly where their types, in order and number, are those that the registry
-- lists for the tag.
pub build-types :
    (tag : MsgTag) (args : List Value)
    → (((p : PayloadType tag) × (build tag args ≡ some p))
        ↔ (map type_of args ≡ args_tuple_type tag))
unfolding build
build-types tag args = (
  λ (p, e).
      assign_fields-types (field_ptrs tag) args (empty_payload tag) p (field_ptrs-AllTyped tag) e
      ∙ field_ptrs-types tag,
  λ e.
      let (p, a) = Fits-args tag args (subst (λ ts. Fits ts args) e (fits args)) in
      (p, ap (build tag) a ∙ build-payload_args tag p),
)

-- Arguments build a payload exactly where they are the values of its fields, in the order of the
-- registry.
pub builds_exactly :
    (tag : MsgTag) (args : List Value) (p : PayloadType tag)
    → ((build tag args ≡ some p) ↔ (args ≡ payload_args tag p))
builds_exactly tag args p = (
  λ e.
      let (q, a) =
        Fits-args tag args
          (subst (λ ts. Fits ts args) ((build-types tag args).0 (p, e)) (fits args)) in
      a ∙ ap (payload_args tag) (cc (e, ap (build tag) a ∙ build-payload_args tag q)),
  λ a. ap (build tag) a ∙ build-payload_args tag p,
)
