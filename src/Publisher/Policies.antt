-- ===== src/Publisher/Policies.antt =====
-- JsonSink of modules/publisher/src/sink_publisher.cpp, the policies of
-- modules/publisher/include/publisher/policy_publisher.hpp and the combinations of publisher.hpp.
mod Tests
use my_server.Common.{ℕ, suc, Option, none, some, List, ◌++◌, Bytes, codes, length}
use my_server.Publisher.Sinks.{Streams, received}
use my_server.Publisher.TextSink.{Formatted, formatted, format_from}

abbrev pub Sink : Type 0
Sink = Bytes → Formatted

unfoldable pub json_sink : Sink
json_sink line = formatted (codes "JsonTest" ++ line)

-- `TextSink::format`, with a round for each character and one more.
unfoldable pub text_sink : (ℕ → Bytes) → Sink
text_sink format_timestamp_us line = format_from format_timestamp_us (suc (length line)) line

-- Where a policy writes: `stdout`, or its file if that is open.
pub data Policy : Type 0 where
  terminal_policy : Policy
  file_policy : Option ℕ → Policy

abbrev pub stdout : ℕ
stdout = 1

-- `write_impl`.
unfoldable pub write_impl : Policy → Bytes → Streams → Streams
write_impl terminal_policy msg streams = received (some stdout) msg streams
write_impl (file_policy file) msg streams = received file msg streams

-- What a sink made of a line, written; what it threw leaves the streams alone.
unfoldable pub write_formatted : Policy → Formatted → Streams → Streams × Formatted
unfolding write_impl
write_formatted policy (formatted msg) streams = (write_impl policy msg streams, formatted msg)
write_formatted policy failed streams = (streams, failed)

-- `PolicyBase::publish`.
unfoldable pub publish : Sink → Policy → Bytes → Streams → Streams × Formatted
unfolding write_formatted
publish sink policy line streams = write_formatted policy (sink line) streams

-- `Publisher<Policy, Sink>::publish`.
unfoldable pub publish_envelope :
    {Envelope : Type 0}
    → (Envelope → Bytes)
    → Sink
    → Policy
    → Envelope
    → Streams
    → Streams × Formatted
unfolding publish
publish_envelope to_view sink policy env streams = publish sink policy (to_view env) streams
