-- ===== src/Loader/Load/Examples.antt =====
-- A trigger wired to an agent.
use ai_agent_go_service.Prelude.{
  String, ◌==◌, ◌≡◌, refl, true, false, List, [], ◌∷◌, none, some, ok,
}
use ai_agent_go_service.Prelude.Int.{pos}
use ai_agent_go_service.Json.{null}
use ai_agent_go_service.Loader.Types.{RawConn}
use ai_agent_go_service.Loader.Nodes.{Node, PortSpec, one, port_exists}
use ai_agent_go_service.Loader.Env.{resolve}
use ai_agent_go_service.Loader.Sensitive.{validate_sensitive_fields}
use ai_agent_go_service.Loader.RetryBlocks.{parse_retry_by_node}
use ai_agent_go_service.Loader.Connections.{validate_connections, check_conn, port_errors}
use ai_agent_go_service.Loader.Topo.{topo_order}
use ai_agent_go_service.Loader.Envelope.{RawWorkflow, validate_envelope, check_nodes}
use ai_agent_go_service.Loader.Overrides.{apply_overrides}
use ai_agent_go_service.Loader.Load.{LoadResult, Loader, add_node, load_workflow, load_one}
use ai_agent_go_service.Loader.Load.Laws.{Ready, load_one-Ready}

abbrev plain_node : String → List PortSpec → Node
plain_node role ports = record {
  spec = record {
    type = role;
    role = role;
    input_ports = ports;
    allowed_templates = [];
    overridable_fields = [];
  };
  implements = λ i. false;
}

abbrev chat : Node
chat = plain_node "trigger" []

abbrev agent : Node
agent =
    plain_node "agent"
      (record { name = "main"; cardinality = one; required = true; peer_role = "" } ∷ [])

abbrev wire : RawConn
wire = record {
  from = record { node = "chat"; port = "main" };
  to = record { node = "agent"; port = "main" };
}

abbrev workflow : RawWorkflow
workflow = record {
  id = "w";
  version = pos 1;
  trigger = "chat";
  nodes =
      record { id = "chat"; type = "trigger"; config = ""; retry = "" }
      ∷ record { id = "agent"; type = "agent"; config = ""; retry = "" }
      ∷ [];
  connections = wire ∷ [];
}

abbrev loader : Loader String String
loader = record {
  services = record {
    env = record { split = λ s. []; lookup_env = λ v. none; itoa = λ n. "0" };
    has_prompts = false;
    latest = λ w id name. ok none;
    is_template = λ s. none;
    decode_fields = λ s. none;
    encode_fields = λ fs. none;
    registry = λ type. elim (type == "trigger") [
      | true ↦ some (λ config. ok chat)
      | false ↦ some (λ config. ok agent)
    ];
  };
  names = record {
    is_sensitive = λ k. false;
    has_env_suffix = λ k. false;
    has_reference = λ s. false;
    itoa = λ n. "0";
  };
  parse = λ s. ok null;
  decode = λ v. ok workflow;
  parse_policy = λ s. ok none;
  iterate = λ ids. ids;
  init = λ done id peers. none;
  is_trigger = λ n. true;
}

abbrev result : LoadResult String
result = record {
  id = "w";
  trigger = "chat";
  nodes = ("chat", chat) ∷ ("agent", agent) ∷ [];
  order = "chat" ∷ "agent" ∷ [];
  connections = wire ∷ [];
  retry_by_node = [];
  initialised = "chat" ∷ "agent" ∷ [];
}

loads : load_one loader "file" ≡ ok result
unfolding load_one load_workflow resolve validate_sensitive_fields validate_envelope check_nodes
    parse_retry_by_node validate_connections check_conn port_errors topo_order apply_overrides
    add_node port_exists
loads = refl

load_one-Ready_example : Ready result
load_one-Ready_example = load_one-Ready loader (λ ids v. refl) "file" result loads
