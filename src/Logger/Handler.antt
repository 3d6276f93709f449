-- ===== src/Logger/Handler.antt =====
-- modules/logger/include/logger/logger.hpp: `Handler::log` and `LogCore::submit`; StreamAdapter of
-- modules/logger/include/logger/core/stream_adapter.hpp; and app/src/main.cpp.
pub mod Logged
mod Tests
use my_server.Common.Outcome.{fault, threw, done}
use my_server.Publisher.TextSink.{Formatted}
use my_server.Common.{◌&&◌, leb, Bool, codes, ℕ, Option, none, some, List, [], ◌∷◌, Bytes}
use my_server.Messages.{
  text_value, u16_value, u32_value, u64_value, severity_value, MsgTag, request, Value,
}
use my_server.Messages.Layout.{payload_size}
use my_server.Publisher.Registry
use my_server.Publisher.Handle.{new_exclusive, destroy}
use my_server.Publisher.Types.{terminal}
use my_server.Publisher.Sinks.{Streams, publish_view}
use my_server.Publisher.Policies.{Policy, Sink, publish_envelope}
use my_server.Logger.Registry.{PayloadType, build, debug_impl, pack_header_args}
use my_server.Logger.Submit.{engine_store, put_all, reset_buf}

-- A payload of either type, and `debug_print` of it.
abbrev pub Payload : Type 0
Payload = (tag : MsgTag) × PayloadType tag

unfoldable pub debug_print : Payload → Bytes
unfolding debug_impl
debug_print (tag, payload) = debug_impl tag payload

-- The asserts of `enqueue` that a record of modules/logger/include/logger/core/log_record.hpp has room
-- for a payload, which is aligned to 64 bytes.
abbrev pub storage_size : ℕ
storage_size = 256

abbrev pub storage_align : ℕ
storage_align = 64

unfoldable pub fits_record : MsgTag → Bool
fits_record tag = leb (payload_size tag) storage_size && leb 64 storage_align

-- `Engine`, the class that takes the payloads.
pub record PayloadQueue : Type 1 where
  pub Engine : Type 0
  pub enqueue : Payload → Engine → Option Engine

-- `Handler::log`: `none` for arguments that do not compile, and where the engine fails.
unfoldable pub log : (q : PayloadQueue) → MsgTag → List Value → q.Engine → Option q.Engine
unfolding build
log q tag args engine = elim (build tag (pack_header_args args)) [
  | none ↦ none
  | some payload ↦ q.enqueue (tag, payload) engine
]

-- `LogCore::submit`.
unfoldable pub submit :
    {Envelope : Type 0}
    → Sink
    → Policy
    → Envelope
    → (Envelope → Bytes)
    → Streams
    → Streams × Formatted
unfolding publish_envelope
submit sink policy env to_view streams = publish_envelope to_view sink policy env streams

-- `StreamAdapter::to_string`, which takes `debug_print` where there is one.
unfoldable pub to_string : Payload → Bytes
unfolding debug_print
to_string obj = debug_print obj

-- The arguments in `main`.
abbrev pub main_args : List Value
main_args =
    severity_value 2
    ∷ u64_value 999999
    ∷ u32_value 1
    ∷ u32_value 42
    ∷ u16_value 1
    ∷ u16_value 2
    ∷ u16_value 1
    ∷ u64_value 100
    ∷ text_value (codes "/api/hello")
    ∷ []

-- What `main` leaves on the streams; `none` is an exception or a fault.
unfoldable pub main : Streams → Option Streams
unfolding build debug_impl
main streams = elim (new_exclusive 0 (λ i. Registry.new)) [
  | done registries handle ↦ (elim (build request (pack_header_args main_args)) [
    | none ↦ none
    | some payload ↦
        (elim (publish_view terminal (registries 0) engine_store handle.token
          (put_all 1024 (debug_impl request payload) reset_buf) streams) [
            | none ↦ none
            | some output ↦ (elim (destroy handle registries) [
              | none ↦ none
              | some _ ↦ some output
            ])
          ])
  ])
  | threw _ _ ↦ none
  | fault ↦ none
]
