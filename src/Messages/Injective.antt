-- ===== src/Messages/Injective.antt =====
-- A printed header determines its tag and its fields.
use Prim.Native.Nat.{zero}
use my_server.Common.{
  zero, suc, inr, ◌-◌, ap, refl, ◌+◌, inl, ◌∙◌, ◌*◌, sym, arith, codes, ◌==◌, if◌then◌else◌,
  Bool-cases, [], ◌++◌, ◌∷◌, List, Bytes, ℕ, ◌≡◌,
}
use my_server.Messages.{
  generic, request, digits, tag_index, MsgTag, print_header, header_fields, decimal, severity_text,
  Header, Field, print_fields, print_value,
}
use my_server.Messages.Decimal.{
  AreDigits, decimal-AreDigits, read_digits-decimal, decimal_injective,
}
use my_server.Messages.Named.{Free, Free-append, if-Free}
use my_server.Publisher.TextSink.{read_digits}

cons_head : {x y : ℕ} {xs ys : Bytes} → x ∷ xs ≡ y ∷ ys → x ≡ y
cons_head e = cc e

cons_tail : {x y : ℕ} {xs ys : Bytes} → x ∷ xs ≡ y ∷ ys → xs ≡ ys
cons_tail e = cc e

-- Texts without a space, and what stands behind them.
cut :
    (xs ys a b : Bytes)
    → Free 32 xs
    → Free 32 ys
    → xs ++ (32 ∷ a) ≡ ys ++ (32 ∷ b)
    → (xs ≡ ys) × (a ≡ b)
cut [] [] a b h k e = (refl, cons_tail e)
cut [] (y ∷ ys) a b h k e = absurd (ground (arith, k.0, cons_head e))
cut (x ∷ xs) [] a b h k e = absurd (ground (arith, h.0, cons_head e))
cut (x ∷ xs) (y ∷ ys) a b h k e =
    let (p, q) = cut xs ys a b h.1 k.1 (cons_tail e) in (cc (cons_head e, p), q)

append_cancel : (xs a b : Bytes) → xs ++ a ≡ xs ++ b → a ≡ b
append_cancel [] a b e = e
append_cancel (x ∷ xs) a b e = append_cancel xs a b (cons_tail e)

-- Fields whose values print without a space, and two payloads whose fields print alike.
abbrev Tight : {P : Type 0} → List (Field P) → P → Type 0
Tight [] p = Unit {0}
Tight (f ∷ fs) p = Free 32 (print_value (f.load p)) × Tight fs p

abbrev Alike : {P : Type 0} → List (Field P) → P → P → Type 0
Alike [] p q = Unit {0}
Alike (f ∷ fs) p q = (print_value (f.load p) ≡ print_value (f.load q)) × Alike fs p q

print_fields-Alike :
    {P : Type 0} (fs : List (Field P)) (p q : P)
    → Tight fs p
    → Tight fs q
    → print_fields fs p ≡ print_fields fs q
    → Alike fs p q
unfolding print_fields
print_fields-Alike [] p q h k e = tt
print_fields-Alike (f ∷ fs) p q h k e =
    let (a, b) =
      cut (print_value (f.load p)) (print_value (f.load q)) (print_fields fs p) (print_fields fs q)
        h.0 k.0 (cons_tail (append_cancel (codes f.name) _ _ e)) in
    (a, print_fields-Alike fs p q h.1 k.1 b)

-- No field of a header prints a space.
digits-Tight : (text : Bytes) → AreDigits text → Free 32 text
digits-Tight [] h = tt
digits-Tight (c ∷ cs) (h, k, hs) = (ground arith, digits-Tight cs hs)

decimal-Tight : (n : ℕ) → Free 32 (decimal n)
decimal-Tight n = digits-Tight (decimal n) (decimal-AreDigits n)

severity_text-Tight : (s : ℕ) → Free 32 (severity_text s)
unfolding severity_text
severity_text-Tight s =
    if-Free 32 (s == 0) (codes "Info") _ (refl, (refl, (refl, (refl, tt))))
      (if-Free 32 (s == 1) (codes "Warn") _ (refl, (refl, (refl, (refl, tt))))
        (if-Free 32 (s == 2) (codes "Error") _ (refl, (refl, (refl, (refl, (refl, tt)))))
          (
            refl,
            (
              refl,
              (
                refl,
                (
                  refl,
                  (
                    refl,
                    (
                      refl,
                      (
                        refl,
                        (refl, Free-append 32 (decimal s) (codes ")") (decimal-Tight s) (refl, tt)),
                      ),
                    ),
                  ),
                ),
              ),
            ),
          )))

header-Tight : (h : Header) → Tight (header_fields (λ p. p) (λ p q. p)) h
unfolding header_fields print_value
header-Tight h = (
  severity_text-Tight h.severity,
  (
    decimal-Tight h.timestamp,
    (
      decimal-Tight h.thread_id,
      (
        decimal-Tight h.request_id,
        (
          decimal-Tight h.class_id,
          (decimal-Tight h.method_id, (decimal-Tight h.schema_version, tt)),
        ),
      ),
    ),
  ),
)

drop : ℕ → Bytes → Bytes
drop zero cs = cs
drop (suc n) [] = []
drop (suc n) (c ∷ cs) = drop n cs

-- The number of a printed severity.
severity_of : Bytes → ℕ
severity_of [] = 0
severity_of (c ∷ cs) =
    if c == 73 then 0 else if c == 87 then 1 else if c == 69 then 2 else read_digits 0 (drop 7 cs)

read_digits-end :
    (n : ℕ) (ds : Bytes) → AreDigits ds → read_digits n (ds ++ (41 ∷ [])) ≡ read_digits n ds
unfolding read_digits
read_digits-end n [] h = refl
read_digits-end n (d ∷ ds) (h, k, hs) = rw (read_digits-end (n * 10 + (d - 48)) ds hs) refl

severity_of-text : (s : ℕ) → severity_of (severity_text s) ≡ s
unfolding severity_text severity_of drop
severity_of-text s = elim (Bool-cases (s == 0)) [
  | inl e ↦ rw e (ground (arith, e))
  | inr e ↦ elim (Bool-cases (s == 1)) [
    | inl f ↦ rw (e, f) (ground (arith, f))
    | inr f ↦ elim (Bool-cases (s == 2)) [
      | inl g ↦ rw (e, f, g) (ground (arith, g))
      | inr g ↦
          rw (e, f, g) (read_digits-end 0 (decimal s) (decimal-AreDigits s) ∙ read_digits-decimal s)
    ]
  ]
]

severity_text_injective : (s t : ℕ) → severity_text s ≡ severity_text t → s ≡ t
severity_text_injective s t e = sym (severity_of-text s) ∙ ap severity_of e ∙ severity_of-text t

Alike-Header : (h k : Header) → Alike (header_fields (λ p. p) (λ p q. p)) h k → h ≡ k
unfolding header_fields print_value
Alike-Header h k (a, (b, (c, (d, (e, (f, (g, u))))))) = λ i. record {
  severity = severity_text_injective h.severity k.severity a i;
  timestamp = decimal_injective h.timestamp k.timestamp b i;
  thread_id = decimal_injective h.thread_id k.thread_id c i;
  request_id = decimal_injective h.request_id k.request_id d i;
  class_id = decimal_injective h.class_id k.class_id e i;
  method_id = decimal_injective h.method_id k.method_id f i;
  schema_version = decimal_injective h.schema_version k.schema_version g i;
}

print_fields_injective :
    (h k : Header)
    → print_fields (header_fields (λ p. p) (λ p q. p)) h
      ≡ print_fields (header_fields (λ p. p) (λ p q. p)) k
    → h ≡ k
print_fields_injective h k e =
    Alike-Header h k (
      print_fields-Alike (header_fields (λ p. p) (λ p q. p)) h k (header-Tight h) (header-Tight k)
        e)

-- A printed header determines the payload: where two of them are equal, the tags are and all fields
-- are, whatever the values.
pub print_header_injective :
    (s t : MsgTag) (h k : Header) → print_header s h ≡ print_header t k → (s ≡ t) × (h ≡ k)
unfolding print_header tag_index decimal digits
print_header_injective generic generic h k e =
    (refl, print_fields_injective h k (append_cancel (codes "[tag=0] ") _ _ e))
print_header_injective request request h k e =
    (refl, print_fields_injective h k (append_cancel (codes "[tag=1] ") _ _ e))
print_header_injective generic request h k e =
    absurd (omega (arith, cons_head (append_cancel (codes "[tag=") _ _ e)))
print_header_injective request generic h k e =
    absurd (omega (arith, cons_head (append_cancel (codes "[tag=") _ _ e)))
