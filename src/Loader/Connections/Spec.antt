-- ===== src/Loader/Connections/Spec.antt =====
-- What valid connections are: a description that does not run the loops of the source.
use ai_agent_go_service.Prelude.{
  ◌≤◌, String, ◌==◌, ◌≡◌, Bool, true, false, ◌&&◌, List, [], ◌∷◌, ◌++◌, Option, some, none, length,
  if◌then◌else◌, All,
}
use ai_agent_go_service.Loader.Types.{RawConn, lookup}
use ai_agent_go_service.Loader.Nodes.{
  Node, PortSpec, Cardinality, one, zero_or_one, peer_implements, port_exists,
}

-- A connection joins two nodes of the workflow at an input port of the second.
pub record Joins (nodes : List (String × Node)) (c : RawConn) : Type 0 where
  pub destination : Node
  pub source : Node
  pub has_destination : lookup c.to.node nodes ≡ some destination
  pub has_source : lookup c.from.node nodes ≡ some source
  pub has_port : port_exists destination.spec.input_ports c.to.port ≡ true

unfoldable pub wired_source : Option Node → List Node
wired_source none = []
wired_source (some n) = n ∷ []

-- The nodes wired to a port, in the order of the connections.
unfoldable pub wired : List (String × Node) → List RawConn → String → String → List Node
unfolding wired_source
wired nodes [] id port = []
wired nodes (c ∷ cs) id port =
    if c.to.node == id && c.to.port == port
    then wired_source (lookup c.from.node nodes) ++ wired nodes cs id port
    else wired nodes cs id port

abbrev pub is_single : Cardinality → Bool
is_single one = true
is_single zero_or_one = true
is_single _ = false

-- A required port has a peer, a single port at most one, and every peer has the port's role.
pub record PortFits (p : PortSpec) (peers : List Node) : Type 0 where
  pub wired_if_required : p.required ≡ true → 1 ≤ length peers
  pub single : is_single p.cardinality ≡ true → length peers ≤ 1
  pub roles : (p.peer_role == "") ≡ false → All (λ n. peer_implements n p.peer_role ≡ true) peers

-- Each port of each node fits what is wired to it.
abbrev pub NodesFit : (String → String → List Node) → List (String × Node) → Type 0
NodesFit inc = All (λ entry. All (λ p. PortFits p (inc entry.0 p.name)) entry.1.spec.input_ports)
