-- ===== src/Server/Config.antt =====
-- app/include/server/server_config.hpp, and ListenerRuntime of app/include/server/pipeline.hpp.
use Prim.Native.String.{String}
use my_server.Common.{ℕ, Bool, true, false, List, []}
use my_server.Server.Types.{ProtocolKind, EndpointKind}

pub record ListenerConfig : Type 0 where
  pub port : ℕ
  pub protocol : ProtocolKind
  pub enabled : Bool

pub record ParserConfig : Type 0 where
  pub enable_sql_dialect : Bool
  pub allow_partial_parse : Bool
  pub max_tokens : ℕ
  pub max_input_size : ℕ

pub record ExecutionConfig : Type 0 where
  pub worker_count : ℕ
  pub enable_backpressure : Bool
  pub queue_capacity : ℕ

pub record PublisherConfig : Type 0 where
  pub enabled : Bool
  pub publish_raw_event : Bool
  pub publish_parsed_input : Bool
  pub publish_command : Bool
  pub publish_result : Bool

pub record DistributorConfig : Type 0 where
  pub enabled : Bool

pub record EndpointConfig : Type 0 where
  pub kind : EndpointKind
  pub enabled : Bool
  pub name : String

pub record LoggerConfig : Type 0 where
  pub enabled : Bool
  pub log_submit : Bool
  pub log_parse : Bool
  pub log_execute : Bool
  pub log_publish : Bool
  pub log_errors : Bool

pub record ServerConfig : Type 0 where
  pub listeners : List ListenerConfig
  pub endpoints : List EndpointConfig
  pub parser : ParserConfig
  pub execution : ExecutionConfig
  pub publisher : PublisherConfig
  pub distributor : DistributorConfig
  pub logger : LoggerConfig

-- The default member initialisers.
abbrev pub default_parser : ParserConfig
default_parser = record {
  enable_sql_dialect = true;
  allow_partial_parse = false;
  max_tokens = 0;
  max_input_size = 0;
}

abbrev pub default_execution : ExecutionConfig
default_execution = record { worker_count = 1; enable_backpressure = true; queue_capacity = 1024 }

abbrev pub default_publisher : PublisherConfig
default_publisher = record {
  enabled = true;
  publish_raw_event = false;
  publish_parsed_input = false;
  publish_command = false;
  publish_result = false;
}

abbrev pub default_logger : LoggerConfig
default_logger = record {
  enabled = true;
  log_submit = false;
  log_parse = false;
  log_execute = false;
  log_publish = false;
  log_errors = true;
}

abbrev pub default_config : ServerConfig
default_config = record {
  listeners = [];
  endpoints = [];
  parser = default_parser;
  execution = default_execution;
  publisher = default_publisher;
  distributor = record { enabled = true };
  logger = default_logger;
}

pub record ListenerRuntime : Type 0 where
  pub port : ℕ
  pub protocol : ProtocolKind
  pub enabled : Bool
