-- ===== src/Loader/Topo/Examples.antt =====
-- A chat workflow: a trigger and a model feed an agent.
use ai_agent_go_service.Prelude.{ℕ, String, ◌≡◌, refl, List, [], ◌∷◌, arith, ok, ◌↔◌}
use ai_agent_go_service.Prelude.Counting.{count-le_one}
use ai_agent_go_service.Loader.Types.{RawConn}
use ai_agent_go_service.Loader.Topo.{topo_order}
use ai_agent_go_service.Loader.Topo.Invariant.{WellFormed}
use ai_agent_go_service.Loader.Topo.Order.{Ranks, topo_order-iff_acyclic}

abbrev link : String → String → String → RawConn
link a b port = record {
  from = record { node = a; port = "main" };
  to = record { node = b; port = port };
}

abbrev chat_ids : List String
chat_ids = "agent" ∷ "llm" ∷ "chat" ∷ []

abbrev chat_conns : List RawConn
chat_conns = link "chat" "agent" "main" ∷ link "llm" "agent" "llm" ∷ []

chat_order : topo_order chat_ids chat_conns ≡ ok ("llm" ∷ "chat" ∷ "agent" ∷ [])
unfolding topo_order
chat_order = refl

abbrev chat_WellFormed : WellFormed chat_ids chat_conns
chat_WellFormed = record { distinct = λ v. count-le_one chat_ids v refl; known = omega arith }

topo_order-iff_acyclic_example :
    ((order : List String) × (topo_order chat_ids chat_conns ≡ ok order))
    ↔ ((rank : String → ℕ) × Ranks rank chat_conns)
topo_order-iff_acyclic_example = topo_order-iff_acyclic chat_ids chat_conns chat_WellFormed
