-- ===== src/Messages/Width.antt =====
-- How long printed numbers and headers are.
use my_server.Common.{
  ◌++◌, codes, List, length-append, ◌==◌, ◌^◌, ℕ, zero, suc, ◌+◌, ◌*◌, ◌/◌, ◌%◌, ◌≤◌, ◌<◌, [], ◌∷◌,
  Bytes, length, arith, ltb, Bool-cases, inl, inr,
}
use my_server.Messages.{
  text_type, u16_type, u32_type, u64_type, request, generic, severity_type, Field, FieldType,
  print_value, header_fields, print_fields, MsgTag, severity_text, print_header, Header, tag_index,
  digits, decimal,
}

abbrev pub pow10 : ℕ → ℕ
pow10 zero = 1
pow10 (suc k) = 10 * pow10 k

digits-length :
    (fuel k n : ℕ) (out : Bytes)
    → n < fuel
    → n < pow10 (suc k)
    → length (digits fuel n out) ≤ suc k + length out
unfolding digits
digits-length zero k n out h b = absurd (omega arith)
digits-length (suc fuel) zero n out h b = elim (Bool-cases (ltb n 10)) [
  | inl e ↦ rw (e, digits) (omega arith)
  | inr e ↦ absurd (ground (arith, e))
]
digits-length (suc fuel) (suc k) n out h b = elim (Bool-cases (ltb n 10)) [
  | inl e ↦ rw (e, digits) (omega arith)
  | inr e ↦
      rw (e, digits)
        (omega (
          arith,
          digits-length fuel k (n / 10) ((48 + n % 10) ∷ out) (ground (arith, e)) (omega arith),
        ))
]

-- A number below 10 ^ (k + 1) has at most k + 1 digits.
decimal-length : (k n : ℕ) → n < pow10 (suc k) → length (decimal n) ≤ suc k
unfolding decimal
decimal-length k n b = omega (arith, digits-length (suc n) k n [] (omega arith) b)

-- The ranges of the fields' C++ types.
pub record InRange (h : Header) : Type 0 where
  pub severity-lt : h.severity < 2 ^ 8
  pub timestamp-lt : h.timestamp < 2 ^ 64
  pub thread_id-lt : h.thread_id < 2 ^ 32
  pub request_id-lt : h.request_id < 2 ^ 32
  pub class_id-lt : h.class_id < 2 ^ 16
  pub method_id-lt : h.method_id < 2 ^ 16
  pub schema_version-lt : h.schema_version < 2 ^ 16

severity_text-length : (s : ℕ) → s < 2 ^ 8 → length (severity_text s) ≤ 12
unfolding severity_text
severity_text-length s h = elim (Bool-cases (s == 0)) [
  | inl e ↦ rw (e) (omega arith)
  | inr e ↦ elim (Bool-cases (s == 1)) [
    | inl f ↦ rw (e, f) (omega arith)
    | inr f ↦ elim (Bool-cases (s == 2)) [
      | inl g ↦ rw (e, f, g) (omega arith)
      | inr g ↦
          rw
            (
              e,
              f,
              g,
              length-append (codes "Unknown(") (decimal s ++ codes ")"),
              length-append (decimal s) (codes ")"),
            )
            (omega (arith, decimal-length 2 s (omega arith)))
    ]
  ]
]

tag-length : (tag : MsgTag) → length (decimal (tag_index tag)) ≤ 1
unfolding tag_index
tag-length generic = decimal-length 0 0 (omega arith)
tag-length request = decimal-length 0 1 (omega arith)

-- The longest text of a value that is not a `string_view`.
abbrev text_width : FieldType → ℕ
text_width severity_type = 12
text_width u64_type = 20
text_width u32_type = 10
text_width u16_type = 5
text_width text_type = 0

abbrev fields_width : {P : Type 0} → List (Field P) → ℕ
fields_width [] = 0
fields_width (f ∷ fs) = length (codes f.name) + suc (text_width f.type + suc (fields_width fs))

abbrev Narrow : {P : Type 0} → List (Field P) → P → Type 0
Narrow [] p = Unit {0}
Narrow (f ∷ fs) p = (length (print_value (f.load p)) ≤ text_width f.type) × Narrow fs p

print_fields-length :
    {P : Type 0} (fs : List (Field P)) (p : P)
    → Narrow fs p
    → length (print_fields fs p) ≤ fields_width fs
unfolding print_fields
print_fields-length [] p n = omega arith
print_fields-length (f ∷ fs) p (n, ns) =
    rw
      (
        length-append (codes f.name) (61 ∷ (print_value (f.load p) ++ (32 ∷ print_fields fs p))),
        length-append (print_value (f.load p)) (32 ∷ print_fields fs p),
      )
      (omega (arith, n, print_fields-length fs p ns))

-- The header line of a payload whose fields are in range is at most 156 bytes long, with either tag: it
-- fits into the 1024 bytes of the stream adapter.
pub print_header-length :
    (tag : MsgTag) (h : Header) → InRange h → length (print_header tag h) ≤ 156
unfolding print_header header_fields print_value
print_header-length tag h r =
    rw
      (length-append (decimal (tag_index tag))
        (codes "] " ++ print_fields (header_fields (λ p. p) (λ p q. p)) h))
      (omega (
        arith,
        tag-length tag,
        print_fields-length (header_fields (λ p. p) (λ p q. p)) h (
          severity_text-length h.severity r.severity-lt,
          (
            decimal-length 19 h.timestamp (omega (arith, r.timestamp-lt)),
            (
              decimal-length 9 h.thread_id (omega (arith, r.thread_id-lt)),
              (
                decimal-length 9 h.request_id (omega (arith, r.request_id-lt)),
                (
                  decimal-length 4 h.class_id (omega (arith, r.class_id-lt)),
                  (
                    decimal-length 4 h.method_id (omega (arith, r.method_id-lt)),
                    (decimal-length 4 h.schema_version (omega (arith, r.schema_version-lt)), tt),
                  ),
                ),
              ),
            ),
          ),
        ),
      ))
