-- ===== src/Engine/Access/Examples.antt =====
-- Two search tools under one policy, and a node that is no tool.
use ai_agent_go_service.Prelude.{String, ◌==◌, List, [], ◌∷◌, some, none, ok, if◌then◌else◌}
use ai_agent_go_service.Engine.Access.{Wiring}

abbrev wiring : Wiring
wiring = record {
  scoped = λ id. if id == "agent" then none else some "rx_*";
  policy_peers = λ id. "policy" ∷ [];
  provider_of = λ id. some (λ pattern. ok "42");
  trim = λ s. s;
}

abbrev ids : List String
ids = "agent" ∷ "search" ∷ []
