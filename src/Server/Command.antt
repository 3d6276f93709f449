-- ===== src/Server/Command.antt =====
-- app/include/server/command.hpp: what the parser builds and the executor returns.
use Prim.Native.String.{String}
use my_server.Common.{Bool, List}

pub data Command : Type 0 where
  select : (table : String) (columns : List String) → Command
  insert : (table : String) (values : List String) → Command

pub record Row : Type 0 where
  pub cells : List String

pub record Result : Type 0 where
  pub success : Bool
  pub message : String
  pub rows : List Row
