-- ===== src/Lib.antt =====
-- A verification library for my-server: a server runtime, a publisher of messages to sinks, and a
-- lock-free logger.
--
-- The program's parts. The server (app/include/server) takes submitted events into a queue and has
-- workers that take each through an adapter, a parser, an executor and a distributor. The publisher
-- (modules/publisher) hands out tokens for delivery channels through a registry, and handles that
-- own a token each. The logger (modules/logger) has a pool of records, a queue and a worker that
-- writes them, with the ids and names of modules/common.
--
-- Which file models which part:
-- - Publisher/Types: modules/publisher/include/publisher/core (publisher_types.hpp,
--   publish_token.hpp).
-- - Publisher/Registry: the class TokenRegistry of .../publisher/runtime/token_registry.hpp. Its
--   arrays are functions of the index, with a bounds test at each access; acquire() is `acquire`,
--   acquire(ChannelGroup) `acquire_group`, release `release`, resolve `resolve`. An exception keeps
--   the state that it is thrown in; a failed assertion is `fault`. Publisher/FreeStack has the
--   lemmas on its two stacks of free numbers; Publisher/Registry has a child for the invariant, for
--   each operation, for histories of calls and for what two tokens have to do with each other.
--   Registry/Book is what the class promises, apart from its arrays, counters and free stacks;
--   Registry/Refines has the book of a registry, and that its calls and sessions are the book's;
--   Registry/Leaks has what calls that find no token left do to a registry.
-- - Publisher/Handle: the class RegistrationHandle of .../publisher/runtime/registration_handle.hpp.
--   A handle names its registry by a number, and a call gets the store of all registries. Handle/Crowd
--   has any number of handles, through sequences of their operations, failed ones included.
-- - Publisher/Sinks: .../publisher/runtime/sink_handles.hpp, sink_traits.hpp, resource_store.hpp and
--   publisher_runtime.hpp. A stream is a number and has the bytes that it received.
-- - Publisher/TextSink and Publisher/Policies: modules/publisher/src/sink_publisher.cpp, and
--   policy_publisher.hpp and publisher.hpp in modules/publisher/include/publisher. Text is a list of
--   bytes, and the printing of local time a parameter.
-- - Ids: log_ids.hpp with its tables, and log_names.cpp, of modules/common.
-- - Server/Types, Command, Config, Hooks, Metrics: the data of app/include/server/server_types.hpp,
--   command.hpp, server_config.hpp, server_hooks.hpp (with app/src/server_hooks.cpp) and
--   metrics/metrics.hpp. The counters wrap at 2 ^ 64.
-- - Server/Parts: the interfaces of app/include/server/pipeline.hpp. What the user plugs in is the
--   parameter `ServerParts`, functions on a state of their own.
-- - Server/Runtime: the class Server of app/include/server/server.h, one function for each method.
--   Runtime/Submit, Processing and Drain are about trySubmit, processEvent and workerLoop;
--   Runtime/Machine interleaves whole calls and rounds of the workers, Runtime/Crew the calls on the
--   parts that many workers make at once.
-- - Server/Wakeup: trySubmit, shutdown and workerLoop of the same class between their atomic
--   accesses, with the condition variable, for any number of workers. Wakeup/Stranded has the
--   stops and submissions that a worker misses, Wakeup/Awake those that it does not.
-- - Server/Startup: start, shutdown, wait, trySubmit and workerLoop between their atomic accesses, with the
--   condition variable, under backpressure, for any number of calls. Startup/Calm, WindDown and CanStop have the
--   schedules that keep starts apart, Startup/LostStop and Startup/Jammed those that do not.
-- - Server/Admission: trySubmit under backpressure between its atomic accesses, for any number of
--   submissions and workers.
-- - Server/Queue and Server/Builder: SimpleMutexQueue and ServerBuilder of the same file.
-- - Logger/FreeList and Logger/MpscQueue: the classes of modules/logger/include/logger/core/
--   lockfree_queue.hpp. Nodes are numbers, and a field of every node is a function. FreeList/Race,
--   FreeList/Single and MpscQueue/Traffic interleave the atomic accesses of the calls.
-- - Logger/Engine: the class LogEngine of .../logger/core/log_engine.hpp and
--   modules/logger/src/log_engine.cpp. Addresses of records are numbers that are never used again; a
--   touch of a freed record is a fault. Engine/Life has sequences of enqueues and rounds of the worker,
--   Engine/Stop the end of the worker, Engine/Restart a second start; Engine/Producers takes enqueue apart
--   and interleaves the calls of any number of threads with the worker, each call on the free list in one
--   step, and Engine/Lifecycle does so with
--   starts, stops and the thread of the worker.
-- - Logger/Submit: LogEngine::submit_impl and store(), with FixedStringBuf of
--   .../logger/core/stream_adapter.hpp; what debug_print writes is a parameter.
-- - Messages: modules/common/include/common/messages (log_message.hpp, payloads/payloads.hpp with its
--   field lists, traits.hpp). A field is an entry of a list that loads and stores a value; the printed
--   header is compared with what the text sink reads of it in Messages/HeaderText.
-- - Logger/Registry: header_args.hpp, payload_register.hpp and builder.hpp of
--   modules/logger/include/logger/registry. A tuple is a list of typed values, and a static_assert that
--   fails is `none`.
-- - Logger/Handler: modules/logger/include/logger/logger.hpp, StreamAdapter of
--   .../logger/core/stream_adapter.hpp, and `main` of app/src/main.cpp.
-- - Common: the names and lemmas that the parts share.
--
-- Bounds and fuel. The registry has 4 channels, 4 groups and 256 tokens, as the source has, and the
-- logger's pool 1024 records. Loops over the arrays are structural. `worker_loop` and `drain` take fuel
-- for their rounds: a round takes an event or an envelope from the queue, so fuel beyond the length of
-- the queue is enough. A round of `format_from` takes a marker off the line, so fuel beyond the length
-- of the line is enough. `decimal` takes fuel beyond the number for its digits, each of which divides it
-- by 10.
--
-- Not modelled: httplib.h, a third-party library; the enum of app/include/common.h, which has no user;
-- memory orderings weaker than sequential consistency; the allocation failures of the standard
-- library.
pub mod Common
pub mod Ids
pub mod Logger
pub mod Messages
pub mod Publisher
pub mod Server
