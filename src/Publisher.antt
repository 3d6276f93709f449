-- ===== src/Publisher.antt =====
-- modules/publisher: channels, tokens, handles and sinks.
pub mod Types
pub mod FreeStack
pub mod Registry
pub mod Handle
pub mod Sinks
pub mod TextSink
pub mod Policies
mod Tests
