-- ===== src/Server.antt =====
-- app/include/server and app/src/server_hooks.cpp: the server runtime and its parts.
pub mod Types
pub mod Command
pub mod Config
pub mod Hooks
pub mod Metrics
pub mod Parts
pub mod Queue
pub mod Runtime
pub mod Builder
pub mod Wakeup
pub mod Admission
pub mod Startup
mod Tests
