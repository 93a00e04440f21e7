-- ===== src/Loader/Connections/Examples.antt =====
-- A trigger and a model wired to an agent.
use ai_agent_go_service.Prelude.{String, ◌≡◌, refl, Bool, true, false, List, [], ◌∷◌, All, ◌↔◌}
use ai_agent_go_service.Loader.Types.{RawConn}
use ai_agent_go_service.Loader.Nodes.{
  Node, PortSpec, Cardinality, one, zero_or_many, peer_implements, port_exists,
}
use ai_agent_go_service.Loader.Connections.{Nodes, check_conn, port_errors, validate_connections}
use ai_agent_go_service.Loader.Connections.Spec.{Joins, NodesFit, wired}
use ai_agent_go_service.Loader.Connections.Laws.{validate_connections_iff}

abbrev plain_node : String → List PortSpec → Node
plain_node role ports = record {
  spec = record {
    type = "test";
    role = role;
    input_ports = ports;
    allowed_templates = [];
    overridable_fields = [];
  };
  implements = λ i. false;
}

abbrev port : String → Cardinality → Bool → String → PortSpec
port name card required role = record {
  name = name;
  cardinality = card;
  required = required;
  peer_role = role;
}

abbrev chat_nodes : Nodes
chat_nodes =
    ("chat", plain_node "trigger" [])
    ∷ ("llm", plain_node "llm" [])
    ∷ (
      "agent",
      plain_node "agent" (
          port "main" one true ""
          ∷ port "ai_languageModel" one true "llm"
          ∷ port "ai_tool" zero_or_many false "tool"
          ∷ []),
    )
    ∷ []

abbrev link : String → String → RawConn
link from port = record {
  from = record { node = from; port = "out" };
  to = record { node = "agent"; port = port };
}

abbrev chat_conns : List RawConn
chat_conns = link "chat" "main" ∷ link "llm" "ai_languageModel" ∷ []

chat_valid : validate_connections chat_nodes chat_conns ≡ []
unfolding validate_connections check_conn port_errors peer_implements port_exists
chat_valid = refl

validate_connections_iff_example :
    (validate_connections chat_nodes chat_conns ≡ [])
    ↔ (All (Joins chat_nodes) chat_conns × NodesFit (wired chat_nodes chat_conns) chat_nodes)
validate_connections_iff_example = validate_connections_iff chat_nodes chat_conns
