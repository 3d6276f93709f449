-- ===== src/Publisher/Policies/Tests.antt =====
-- Runs of the policies.
use my_server.Common.{none, [], ◌≡◌, refl, codes}
use my_server.Publisher.Sinks.{Streams}
use my_server.Publisher.Policies.{
  publish, write_formatted, write_impl, json_sink, terminal_policy, file_policy,
}

abbrev silent : Streams
silent = λ i. []

json_runs : (publish json_sink terminal_policy (codes "x") silent).0 1 ≡ codes "JsonTestx"
unfolding publish write_formatted write_impl json_sink
json_runs = refl

-- A file that could not be opened gets nothing, and nothing is said.
closed_runs : (publish json_sink (file_policy none) (codes "x") silent).0 1 ≡ []
unfolding publish write_formatted write_impl json_sink
closed_runs = refl
