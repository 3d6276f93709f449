-- ===== src/Logger.antt =====
-- modules/logger: the pool of log records, the queue to the worker, and the engine.
pub mod FreeList
pub mod MpscQueue
pub mod Engine
pub mod Submit
pub mod Registry
pub mod Handler
