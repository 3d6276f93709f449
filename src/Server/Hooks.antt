-- ===== src/Server/Hooks.antt =====
-- app/include/server/server_hooks.hpp and app/src/server_hooks.cpp. A hook is a function pointer to
-- code of the server's user: the table says which are set, and a call of one is an entry of a log.
use Prim.Native.String.{String}
use my_server.Common.{Bool, true, false}
use my_server.Server.Types.{SubmitStatus}

pub record ServerHookTable : Type 0 where
  pub on_event_received : Bool
  pub on_submit_result : Bool
  pub on_raw_input : Bool
  pub on_parsed_input : Bool
  pub on_command_built : Bool
  pub on_result_ready : Bool
  pub on_distributed : Bool
  pub on_error : Bool

-- The default table, of null pointers.
abbrev pub no_hooks : ServerHookTable
no_hooks = record {
  on_event_received = false;
  on_submit_result = false;
  on_raw_input = false;
  on_parsed_input = false;
  on_command_built = false;
  on_result_ready = false;
  on_distributed = false;
  on_error = false;
}

-- `makeNoopHooks`: every hook is set, to a function that does nothing.
abbrev pub noop_hooks : ServerHookTable
noop_hooks = record {
  on_event_received = true;
  on_submit_result = true;
  on_raw_input = true;
  on_parsed_input = true;
  on_command_built = true;
  on_result_ready = true;
  on_distributed = true;
  on_error = true;
}

pub data HookCall (Event : Type 0) : Type 0 where
  event_received : Event → HookCall Event
  submit_result : SubmitStatus → HookCall Event
  raw_input command_built result_ready distributed failure : String → HookCall Event
