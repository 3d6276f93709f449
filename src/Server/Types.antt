-- ===== src/Server/Types.antt =====
-- app/include/server/server_types.hpp.

pub data ServerState : Type 0 where
  created running stopping stopped failed : ServerState

pub data ShutdownMode : Type 0 where
  graceful force : ShutdownMode

pub data SubmitStatus : Type 0 where
  accepted rejected_full rejected_stopped invalid error : SubmitStatus

pub data ProtocolKind : Type 0 where
  mysql tcp http custom : ProtocolKind

pub data EndpointKind : Type 0 where
  socket file terminal custom : EndpointKind
