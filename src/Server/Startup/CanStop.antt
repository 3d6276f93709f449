-- ===== src/Server/Startup/CanStop.antt =====
-- Server can always be stopped while its starts are apart from its other calls.
use Prim.Native.Nat.{zero}
use my_server.Common.{zero}
use my_server.Server.Startup.{Startup}
