-- ===== src/Ids.antt =====
-- modules/common: log_ids.hpp with the tables log_classes.def and log_ids.def, and log_names.cpp. An
-- enumerator is its number.
use Prim.Native.String.{String}
use my_server.Common.{ℕ, Option, List, [], ◌∷◌, get_elem?}

pub data LogClassId : Type 0 where
  server handler : LogClassId

pub data MethodId : Type 0 where
  server_add_event handler_run handler_terminate_threads handler_add_event handler_handling_event :
      MethodId

abbrev pub class_names : List String
class_names = "Server" ∷ "Handler" ∷ []

abbrev pub method_names : List String
method_names = "AddEvent" ∷ "Run" ∷ "terminateThreads" ∷ "addEvent" ∷ "handlingEvent" ∷ []

abbrev pub method_classes : List LogClassId
method_classes = server ∷ handler ∷ handler ∷ handler ∷ handler ∷ []

-- The functions index the tables without a test: `none` is an index out of range.
unfoldable pub class_name : ℕ → Option String
class_name c = get_elem? class_names c

unfoldable pub method_name : ℕ → Option String
method_name m = get_elem? method_names m

unfoldable pub method_class : ℕ → Option LogClassId
method_class m = get_elem? method_classes m
