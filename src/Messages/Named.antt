-- ===== src/Messages/Named.antt =====
-- The text sink on a printed header: its finds, one marker and field at a time.
use my_server.Common.{
  true, if◌then◌else◌, Bool, append_assoc, refl, false, ◌==◌, none, ◌++◌, arith, ◌∷◌, [], some,
  codes, Option, Bytes, ◌<◌, ℕ, ◌≡◌,
}
use my_server.Messages.{decimal, severity_text}
use my_server.Messages.Decimal.{AreDigits, decimal-AreDigits}
use my_server.Publisher.TextSink.{
  find, strip, in_front, timestamp_marker, class_marker, method_marker,
}

-- A text without the byte `c`.
abbrev pub Free : ℕ → Bytes → Type 0
Free c [] = Unit {0}
Free c (b ∷ bs) = ((c == b) ≡ false) × Free c bs

-- What is found behind a text.
abbrev pub behind : Bytes → Option (Bytes × Bytes) → Option (Bytes × Bytes)
behind text none = none
behind text (some (a, b)) = some (text ++ a, b)

in_front-behind :
    (c : ℕ) (cs : Bytes) (o : Option (Bytes × Bytes)) → in_front c (behind cs o) ≡ behind (c ∷ cs) o
in_front-behind c cs none = refl
in_front-behind c cs (some (a, b)) = refl

behind-nil : (o : Option (Bytes × Bytes)) → o ≡ behind [] o
behind-nil none = refl
behind-nil (some (a, b)) = refl

-- A marker is not found in a text that lacks its first byte.
find-Free :
    (c : ℕ) (ms text rest : Bytes)
    → Free c text
    → find (c ∷ ms) (text ++ rest) ≡ behind text (find (c ∷ ms) rest)
unfolding find strip
find-Free c ms [] rest h = behind-nil (find (c ∷ ms) rest)
find-Free c ms (b ∷ bs) rest (e, h) =
    rw (e, find) (rw (find-Free c ms bs rest h) (in_front-behind b bs (find (c ∷ ms) rest)))

digits-Free : (c : ℕ) (text : Bytes) → 57 < c → AreDigits text → Free c text
digits-Free c [] l h = tt
digits-Free c (b ∷ bs) l (h, k, hs) = (ground arith, digits-Free c bs l hs)

decimal-Free : (c n : ℕ) → 57 < c → Free c (decimal n)
decimal-Free c n l = digits-Free c (decimal n) l (decimal-AreDigits n)

pub Free-append : (c : ℕ) (xs ys : Bytes) → Free c xs → Free c ys → Free c (xs ++ ys)
Free-append c [] ys h k = k
Free-append c (x ∷ xs) ys (e, h) k = (e, Free-append c xs ys h k)

pub if-Free :
    (c : ℕ) (b : Bool) (xs ys : Bytes) → Free c xs → Free c ys → Free c (if b then xs else ys)
if-Free c true xs ys h k = h
if-Free c false xs ys h k = k

pub severity_text-Free : (s : ℕ) → Free 116 (severity_text s)
unfolding severity_text
severity_text-Free s =
    if-Free 116 (s == 0) (codes "Info") _ (refl, (refl, (refl, (refl, tt))))
      (if-Free 116 (s == 1) (codes "Warn") _ (refl, (refl, (refl, (refl, tt))))
        (if-Free 116 (s == 2) (codes "Error") _ (refl, (refl, (refl, (refl, (refl, tt)))))
          (
            refl,
            (
              refl,
              (
                refl,
                (
                  refl,
                  (
                    refl,
                    (
                      refl,
                      (
                        refl,
                        (
                          refl,
                          Free-append 116 (decimal s) (codes ")") (decimal-Free 116 s (omega arith))
                              (refl, tt),
                        ),
                      ),
                    ),
                  ),
                ),
              ),
            ),
          )))

-- A text without the first bytes of the markers.
pub record Plain (text : Bytes) : Type 0 where
  pub no_t : Free 116 text
  pub no_c : Free 99 text
  pub no_m : Free 109 text

pub decimal-Plain : (n : ℕ) → Plain (decimal n)
decimal-Plain n = record {
  no_t = decimal-Free 116 n (omega arith);
  no_c = decimal-Free 99 n (omega arith);
  no_m = decimal-Free 109 n (omega arith);
}

-- What `print_header` prints, for texts of the fields.
abbrev pub before_timestamp : Bytes → Bytes → Bytes
before_timestamp tag severity =
    codes "[tag=" ++ (tag ++ (codes "] severity=" ++ (severity ++ codes " ")))

abbrev pub after_method : Bytes → Bytes
after_method schema_version = codes " schema_version=" ++ (schema_version ++ codes " ")

abbrev pub before_class : Bytes → Bytes → Bytes
before_class thread_id request_id =
    codes " thread_id=" ++ (thread_id ++ (codes " request_id=" ++ (request_id ++ codes " ")))

abbrev pub before_method : Bytes
before_method = codes " "

pub find_timestamp :
    (tag severity rest : Bytes)
    → Free 116 tag
    → Free 116 severity
    → find timestamp_marker (before_timestamp tag severity ++ (timestamp_marker ++ rest))
      ≡ some (before_timestamp tag severity, rest)
unfolding find strip
find_timestamp tag severity rest h k =
    rw
      (
        append_assoc tag (codes "] severity=" ++ (severity ++ codes " "))
            (timestamp_marker ++ rest),
        append_assoc severity (codes " ") (timestamp_marker ++ rest),
        find-Free 116 (codes "imestamp=") tag
            (codes "] severity=" ++ (severity ++ (codes " " ++ (timestamp_marker ++ rest)))) h,
        find-Free 116 (codes "imestamp=") severity (codes " " ++ (timestamp_marker ++ rest)) k,
      )
      refl

module _ (x : Bytes) (h : Plain x) where
  pub after_method-no_timestamp : find timestamp_marker (after_method x) ≡ none
  unfolding find strip
  after_method-no_timestamp = rw (find-Free 116 (codes "imestamp=") x (codes " ") h.no_t) refl

  pub after_method-no_class : find class_marker (after_method x) ≡ none
  unfolding find strip
  after_method-no_class = rw (find-Free 99 (codes "lass_id=") x (codes " ") h.no_c) refl

  pub after_method-no_method : find method_marker (after_method x) ≡ none
  unfolding find strip
  after_method-no_method = rw (find-Free 109 (codes "ethod_id=") x (codes " ") h.no_m) refl

module _ (y rest : Bytes) (h : Plain y) where
  pub after_class-no_timestamp :
      find timestamp_marker rest ≡ none
      → find timestamp_marker (before_method ++ (method_marker ++ (y ++ rest))) ≡ none
  unfolding find strip
  after_class-no_timestamp e = rw (find-Free 116 (codes "imestamp=") y rest h.no_t, e) refl

  pub after_class-no_class :
      find class_marker rest ≡ none
      → find class_marker (before_method ++ (method_marker ++ (y ++ rest))) ≡ none
  unfolding find strip
  after_class-no_class e = rw (find-Free 99 (codes "lass_id=") y rest h.no_c, e) refl

  pub find_method :
      find method_marker (before_method ++ (method_marker ++ (y ++ rest)))
      ≡ some (before_method, y ++ rest)
  unfolding find strip
  find_method = refl

module _ (a b z rest : Bytes) (h : Plain a) (k : Plain b) (l : Plain z) where
  pub after_timestamp-no_timestamp :
      find timestamp_marker rest ≡ none
      → find timestamp_marker (before_class a b ++ (class_marker ++ (z ++ rest))) ≡ none
  unfolding find strip
  after_timestamp-no_timestamp e =
      rw
        (
          append_assoc a (codes " request_id=" ++ (b ++ codes " ")) (class_marker ++ (z ++ rest)),
          append_assoc b (codes " ") (class_marker ++ (z ++ rest)),
          find-Free 116 (codes "imestamp=") a
              (codes " request_id=" ++ (b ++ (codes " " ++ (class_marker ++ (z ++ rest))))) h.no_t,
          find-Free 116 (codes "imestamp=") b (codes " " ++ (class_marker ++ (z ++ rest))) k.no_t,
          find-Free 116 (codes "imestamp=") z rest l.no_t,
          e,
        )
        refl

  pub find_class :
      find class_marker (before_class a b ++ (class_marker ++ (z ++ rest)))
      ≡ some (before_class a b, z ++ rest)
  unfolding find strip
  find_class =
      rw
        (
          append_assoc a (codes " request_id=" ++ (b ++ codes " ")) (class_marker ++ (z ++ rest)),
          append_assoc b (codes " ") (class_marker ++ (z ++ rest)),
          find-Free 99 (codes "lass_id=") a
              (codes " request_id=" ++ (b ++ (codes " " ++ (class_marker ++ (z ++ rest))))) h.no_c,
          find-Free 99 (codes "lass_id=") b (codes " " ++ (class_marker ++ (z ++ rest))) k.no_c,
        )
        refl
