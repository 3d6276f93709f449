-- ===== src/Messages/HeaderText.antt =====
-- The text sink on a printed header, against a description of the text that a reader gets.
use Prim.Native.String.{String}
use my_server.Ids.{method_name, class_name}
use my_server.Common.{
  ◌∙◌, ap, append_assoc, zero, arith, suc, ◌++◌, ◌<◌, some, codes, Bytes, ℕ, ◌≡◌,
}
use my_server.Messages.{
  print_value, header_fields, print_fields, print_header, tag_index, MsgTag, decimal, severity_text,
  Header,
}
use my_server.Messages.Width.{InRange}
use my_server.Messages.Named.{
  after_method-no_method, find_method, after_class-no_class, find_class, after_method-no_class,
  severity_text-Free, decimal-Plain, after_timestamp-no_timestamp, after_method-no_timestamp,
  after_class-no_timestamp, find_timestamp, before_timestamp, before_class, before_method,
  after_method,
}
use my_server.Messages.Formatted.{
  format_from-none, format_from-class, format_from-method, format_from-timestamp,
}
use my_server.Publisher.Policies.{text_sink}
use my_server.Publisher.TextSink.{
  timestamp_marker, class_marker, method_marker, format_from, prepend, formatted,
}

class_name-lt : (n : ℕ) (name : String) → class_name n ≡ some name → n < 2
unfolding class_name
class_name-lt zero name e = omega arith
class_name-lt (suc zero) name e = omega arith
class_name-lt (suc (suc n)) name e = absurd (cc e)

method_name-lt : (n : ℕ) (name : String) → method_name n ≡ some name → n < 5
unfolding method_name
method_name-lt zero name e = omega arith
method_name-lt (suc zero) name e = omega arith
method_name-lt (suc (suc zero)) name e = omega arith
method_name-lt (suc (suc (suc zero))) name e = omega arith
method_name-lt (suc (suc (suc (suc zero)))) name e = omega arith
method_name-lt (suc (suc (suc (suc (suc n))))) name e = absurd (cc e)

-- The header with the local time of the timestamp and the names of its class and method.
abbrev named_header : MsgTag → Header → Bytes → String → String → Bytes
named_header tag h time class method =
    codes "[tag="
    ++ (decimal (tag_index tag)
        ++ (codes "] severity="
            ++ (severity_text h.severity
                ++ (codes " timestamp="
                    ++ (time
                        ++ (codes " thread_id="
                            ++ (decimal h.thread_id
                                ++ (codes " request_id="
                                    ++ (decimal h.request_id
                                        ++ (codes " class_id="
                                            ++ (codes class
                                                ++ (codes " method_id="
                                                    ++ (codes method
                                                        ++ (codes " schema_version="
                                                            ++ (decimal h.schema_version
                                                            ++ codes " ")))))))))))))))

-- The pieces that the rounds of the loop leave.
module _ (clock : ℕ → Bytes) (h : Header) (r : InRange h) (class method : String)
    (c : class_name h.class_id ≡ some class) (m : method_name h.method_id ≡ some method) where
  abbrev left_schema : Bytes
  left_schema = after_method (decimal h.schema_version)

  abbrev left_method : Bytes
  left_method = before_method ++ (method_marker ++ (decimal h.method_id ++ left_schema))

  abbrev left_class : Bytes
  left_class =
      before_class (decimal h.thread_id) (decimal h.request_id)
      ++ (class_marker ++ (decimal h.class_id ++ left_method))

  left_schema-format : (fuel : ℕ) → format_from clock (suc fuel) left_schema ≡ formatted left_schema
  left_schema-format fuel =
      format_from-none clock fuel _ _
        (after_method-no_timestamp (decimal h.schema_version) (decimal-Plain h.schema_version))
        (after_method-no_class (decimal h.schema_version) (decimal-Plain h.schema_version))
        (after_method-no_method (decimal h.schema_version) (decimal-Plain h.schema_version))

  left_method-format :
      (fuel : ℕ)
      → format_from clock (suc (suc fuel)) left_method
        ≡ prepend ((before_method ++ method_marker) ++ codes method) (formatted left_schema)
  left_method-format fuel =
      format_from-method clock (suc fuel) _ _ before_method _ h.method_id method m
        (omega (arith, method_name-lt h.method_id method m))
        (after_class-no_timestamp (decimal h.method_id) left_schema (decimal-Plain h.method_id)
          (after_method-no_timestamp (decimal h.schema_version) (decimal-Plain h.schema_version)))
        (after_class-no_class (decimal h.method_id) left_schema (decimal-Plain h.method_id)
          (after_method-no_class (decimal h.schema_version) (decimal-Plain h.schema_version)))
        (find_method (decimal h.method_id) left_schema (decimal-Plain h.method_id))
      ∙ ap (prepend ((before_method ++ method_marker) ++ codes method)) (left_schema-format fuel)

  left_class-format :
      (fuel : ℕ)
      → format_from clock (suc (suc (suc fuel))) left_class
        ≡ prepend
            ((before_class (decimal h.thread_id) (decimal h.request_id) ++ class_marker)
              ++ codes class)
            (prepend ((before_method ++ method_marker) ++ codes method) (formatted left_schema))
  left_class-format fuel =
      format_from-class clock (suc (suc fuel)) _ _
        (before_class (decimal h.thread_id) (decimal h.request_id)) _ h.class_id class c
        (omega (arith, class_name-lt h.class_id class c))
        (after_timestamp-no_timestamp (decimal h.thread_id) (decimal h.request_id)
          (decimal h.class_id) left_method (decimal-Plain h.thread_id) (decimal-Plain h.request_id)
          (decimal-Plain h.class_id)
          (after_class-no_timestamp (decimal h.method_id) left_schema (decimal-Plain h.method_id) (
            after_method-no_timestamp (decimal h.schema_version) (decimal-Plain h.schema_version))))
        (find_class (decimal h.thread_id) (decimal h.request_id) (decimal h.class_id) left_method
          (decimal-Plain h.thread_id) (decimal-Plain h.request_id) (decimal-Plain h.class_id))
      ∙ ap
          (prepend (
            (before_class (decimal h.thread_id) (decimal h.request_id) ++ class_marker)
            ++ codes class))
          (left_method-format fuel)

  line-format :
      (tag : MsgTag) (fuel : ℕ)
      → format_from clock (suc (suc (suc (suc fuel)))) (
          before_timestamp (decimal (tag_index tag)) (severity_text h.severity)
          ++ (timestamp_marker ++ (decimal h.timestamp ++ left_class)))
        ≡ prepend
            ((before_timestamp (decimal (tag_index tag)) (severity_text h.severity)
                ++ timestamp_marker)
              ++ clock h.timestamp)
            (prepend
              ((before_class (decimal h.thread_id) (decimal h.request_id) ++ class_marker)
                ++ codes class)
              (prepend ((before_method ++ method_marker) ++ codes method) (formatted left_schema)))
  line-format tag fuel =
      format_from-timestamp clock (suc (suc (suc fuel))) _ _
        (before_timestamp (decimal (tag_index tag)) (severity_text h.severity)) _ h.timestamp
        r.timestamp-lt
        (find_timestamp (decimal (tag_index tag)) (severity_text h.severity)
          (decimal h.timestamp ++ left_class) (decimal-Plain (tag_index tag)).no_t
          (severity_text-Free h.severity))
      ∙ ap
          (prepend (
            (before_timestamp (decimal (tag_index tag)) (severity_text h.severity)
              ++ timestamp_marker)
            ++ clock h.timestamp))
          (left_class-format fuel)

  line-print_header :
      (tag : MsgTag)
      → print_header tag h
        ≡ before_timestamp (decimal (tag_index tag)) (severity_text h.severity)
          ++ (timestamp_marker ++ (decimal h.timestamp ++ left_class))
  unfolding print_header print_fields header_fields print_value
  line-print_header tag = simp append_assoc

  -- A header whose fields are in range and whose class and method ids have names comes out of the text
  -- sink with the clock's text for the timestamp and the names for the two ids, and with everything
  -- else as printed, whatever the tag and the clock.
  pub text_sink-print_header :
      (tag : MsgTag)
      → text_sink clock (print_header tag h)
        ≡ formatted (named_header tag h (clock h.timestamp) class method)
  unfolding text_sink
  text_sink-print_header tag =
      ap (text_sink clock) (line-print_header tag)
      ∙ line-format tag _
      ∙ ap formatted (simp append_assoc)
