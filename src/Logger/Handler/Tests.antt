-- ===== src/Logger/Handler/Tests.antt =====
-- Runs of the front end of the logger and of main, and the theorems about them at concrete inputs.
use my_server.Common.Outcome.{after}
use my_server.Publisher.Registry.Invariant.{IsValid}
use my_server.Publisher.Registry.History.{fresh, acquired, History-IsValid}
use my_server.Logger.Engine
use my_server.Logger.FreeList
use my_server.Logger.Engine.{EngineParts, LogEngine, ensure_running, stop_worker}
use my_server.Logger.Engine.Life.{started}
use my_server.Logger.Handler.Logged.{parts, engine_queue, log_reaches_cout}
use my_server.Messages.Width.{InRange}
use my_server.Logger.Registry.Builds.{payload_args}
use my_server.Common.{ℕ, none, ◌≢◌, arith, ◌≡◌, refl, some, codes, update, []}
use my_server.Publisher.Handle.{new_exclusive, destroy, release_handle, valid}
use my_server.Publisher.Registry
use my_server.Publisher.Registry.{TokenRegistry, new, acquire, resolve, release}
use my_server.Publisher.Sinks.{publish_view, write_channel, handle, write}
use my_server.Messages.{
  RequestPayload, header_fields, request_fields, print_header, print_fields, print_value, decimal,
  digits, severity_text, tag_index,
}
use my_server.Logger.Registry.{build, assign_fields, field_ptrs, debug_impl}
use my_server.Logger.Submit.{cout, engine_store, put_all, put_char}
use my_server.Logger.Handler.{debug_print, request, log, Streams, main}

abbrev silent : Streams
silent = λ i. []

main_run :
    main silent
    ≡ some (
        update silent cout (
          codes
            "[tag=1] severity=Error timestamp=999999 thread_id=1 request_id=42 class_id=1 method_id=2 schema_version=1 "))
unfolding main new_exclusive new acquire Registry.pop_free_channel Registry.set_channel
    Registry.allocate_token destroy release_handle valid resolve release publish_view write_channel
    handle write header_fields request_fields print_header print_fields print_value decimal digits
    severity_text tag_index build assign_fields field_ptrs debug_impl engine_store put_all put_char
    Registry.give_back Registry.drop_user Registry.free_token
main_run = refl

-- The registry of the engine, whose constructor took token 0.
unfoldable one : TokenRegistry
unfolding new acquire Registry.pop_free_channel Registry.set_channel Registry.allocate_token
one = after new (acquire new)

one-IsValid : IsValid one
unfolding one
one-IsValid = History-IsValid (acquired 0 fresh refl)

abbrev engine_parts : EngineParts
engine_parts = parts one 0

unfoldable ready : LogEngine engine_parts
ready = ensure_running engine_parts (Engine.new engine_parts silent)

ready-has_records : ready.freelist.head ≢ none
unfolding ready Engine.new ensure_running Engine.init_pool_and_queue Engine.push_range FreeList.new
    FreeList.push
ready-has_records = λ e. cc e

abbrev sample : RequestPayload
sample = record {
  header = record {
    severity = 2;
    timestamp = 999999;
    thread_id = 1;
    request_id = 42;
    class_id = 1;
    method_id = 2;
    schema_version = 1;
  };
  req_unique_id = 100;
  path = codes "/api/hello";
}

sample-InRange : InRange sample.header
sample-InRange = record {
  severity-lt = omega arith;
  timestamp-lt = omega arith;
  thread_id-lt = omega arith;
  request_id-lt = omega arith;
  class_id-lt = omega arith;
  method_id-lt = omega arith;
  schema_version-lt = omega arith;
}

log_reaches_cout_example :
    (t : LogEngine engine_parts) × (log
        (engine_queue one 0)
        request
        (payload_args request sample)
        ready
      ≡ some t)
    × ((fuel : ℕ) × (u : LogEngine engine_parts) × (stop_worker engine_parts fuel t ≡ some u)
        × (u.world cout ≡ debug_print (request, sample)))
unfolding one resolve ready
log_reaches_cout_example =
    log_reaches_cout one 0 3 silent [] ready request sample one-IsValid refl started
      ready-has_records tt sample-InRange
