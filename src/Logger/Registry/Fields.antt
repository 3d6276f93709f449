-- ===== src/Logger/Registry/Fields.antt =====
-- PayloadRegister and Builder: the types of the fields, and of arguments that are assigned to them.
use my_server.Common.{Option, inr, arith, inl, refl, Option-cases, some, map, [], ◌≡◌, ◌∷◌, List, ℕ}
use my_server.Messages.{
  u32_field, u64_field, severity_field, u16_field, path_field, text_value, u16_value, u32_value,
  u64_value, severity_value, request, generic, header_fields, request_fields, type_of, MsgTag,
}
use my_server.Logger.Registry.{
  text_type, u16_type, u32_type, u64_type, severity_type, FieldType, Value, request_fields, Field,
  header_fields, field_ptrs, args_tuple_type, assign_fields,
}

-- A field that stores no value but one of its type.
abbrev pub Typed : {P : Type 0} → FieldType → (Value → P → Option P) → Type 0
Typed {P = P} t store = (v : Value) (p q : P) → store v p ≡ some q → type_of v ≡ t

abbrev pub AllTyped : {P : Type 0} → List (Field P) → Type 0
AllTyped [] = Unit {0}
AllTyped (f ∷ fs) = Typed f.type f.store × AllTyped fs

pub assign_fields-types :
    {P : Type 0} (fs : List (Field P)) (args : List Value) (p q : P)
    → AllTyped fs
    → assign_fields fs args p ≡ some q
    → map type_of args ≡ map (λ f. f.type) fs
unfolding assign_fields
assign_fields-types [] [] p q t e = refl
assign_fields-types [] (v ∷ vs) p q t e = absurd (cc e)
assign_fields-types (f ∷ fs) [] p q t e = absurd (cc e)
assign_fields-types (f ∷ fs) (v ∷ vs) p q (t, ts) e = elim (Option-cases (f.store v p)) [
  | inl z ↦ absurd (ground (arith, z, e))
  | inr (r, z) ↦ cc (t v p r z, assign_fields-types fs vs r q ts (rw z at e))
]

module _ {P : Type 0} (set : ℕ → P → P) where
  severity_field-Typed : Typed severity_type (severity_field "" (λ p. 0) set).store
  severity_field-Typed (severity_value n) p q e = refl
  severity_field-Typed (u64_value n) p q e = absurd (cc e)
  severity_field-Typed (u32_value n) p q e = absurd (cc e)
  severity_field-Typed (u16_value n) p q e = absurd (cc e)
  severity_field-Typed (text_value n) p q e = absurd (cc e)

  u64_field-Typed : Typed u64_type (u64_field "" (λ p. 0) set).store
  u64_field-Typed (severity_value n) p q e = absurd (cc e)
  u64_field-Typed (u64_value n) p q e = refl
  u64_field-Typed (u32_value n) p q e = absurd (cc e)
  u64_field-Typed (u16_value n) p q e = absurd (cc e)
  u64_field-Typed (text_value n) p q e = absurd (cc e)

  u32_field-Typed : Typed u32_type (u32_field "" (λ p. 0) set).store
  u32_field-Typed (severity_value n) p q e = absurd (cc e)
  u32_field-Typed (u64_value n) p q e = absurd (cc e)
  u32_field-Typed (u32_value n) p q e = refl
  u32_field-Typed (u16_value n) p q e = absurd (cc e)
  u32_field-Typed (text_value n) p q e = absurd (cc e)

  u16_field-Typed : Typed u16_type (u16_field "" (λ p. 0) set).store
  u16_field-Typed (severity_value n) p q e = absurd (cc e)
  u16_field-Typed (u64_value n) p q e = absurd (cc e)
  u16_field-Typed (u32_value n) p q e = absurd (cc e)
  u16_field-Typed (u16_value n) p q e = refl
  u16_field-Typed (text_value n) p q e = absurd (cc e)

path_field-Typed : Typed text_type path_field.store
path_field-Typed (severity_value n) p q e = absurd (cc e)
path_field-Typed (u64_value n) p q e = absurd (cc e)
path_field-Typed (u32_value n) p q e = absurd (cc e)
path_field-Typed (u16_value n) p q e = absurd (cc e)
path_field-Typed (text_value t) p q e = refl

pub field_ptrs-AllTyped : (tag : MsgTag) → AllTyped (field_ptrs tag)
unfolding field_ptrs header_fields request_fields
field_ptrs-AllTyped generic = (
  severity_field-Typed _,
  (
    u64_field-Typed _,
    (
      u32_field-Typed _,
      (u32_field-Typed _, (u16_field-Typed _, (u16_field-Typed _, (u16_field-Typed _, tt)))),
    ),
  ),
)
field_ptrs-AllTyped request = (
  severity_field-Typed _,
  (
    u64_field-Typed _,
    (
      u32_field-Typed _,
      (
        u32_field-Typed _,
        (
          u16_field-Typed _,
          (u16_field-Typed _, (u16_field-Typed _, (u64_field-Typed _, (path_field-Typed, tt)))),
        ),
      ),
    ),
  ),
)

pub field_ptrs-types : (tag : MsgTag) → map (λ f. f.type) (field_ptrs tag) ≡ args_tuple_type tag
unfolding field_ptrs header_fields request_fields
field_ptrs-types generic = refl
field_ptrs-types request = refl
