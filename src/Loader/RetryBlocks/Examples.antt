-- ===== src/Loader/RetryBlocks/Examples.antt =====
-- An agent with a retry block next to a trigger without one.
use ai_agent_go_service.Prelude.{String, false, List, [], ◌∷◌, Option, some, Result, ok}
use ai_agent_go_service.Loader.Nodes.{Node}
use ai_agent_go_service.Loader.RetryBlocks.{RetryBlock}

abbrev parse : String → Result String (Option String)
parse s = ok (some s)

abbrev plain_node : String → Node
plain_node role = record {
  spec = record {
    type = "test";
    role = role;
    input_ports = [];
    allowed_templates = [];
    overridable_fields = [];
  };
  implements = λ i. false;
}

abbrev instances : List (String × Node)
instances = ("chat", plain_node "trigger") ∷ ("agent", plain_node "agent") ∷ []

abbrev agent_block : RetryBlock
agent_block = record { id = "agent"; retry = "{}" }

abbrev blocks : List RetryBlock
blocks = record { id = "chat"; retry = "" } ∷ agent_block ∷ []
