-- ===== src/Loader/Connections.antt =====
-- ValidateConnections of validate.go. The nodes come in the order of one iteration over the map.
pub mod Spec
pub mod Ports
pub mod Laws
pub mod Examples
use ai_agent_go_service.Prelude.{
  ℕ, String, ◌==◌, Bool, true, false, not, ◌&&◌, ◌||◌, List, [], ◌∷◌, ◌++◌, Option, some, none,
  Result, ok, err, length, eqb, ltb, if◌then◌else◌,
}
use ai_agent_go_service.Loader.Types.{RawConn, lookup}
use ai_agent_go_service.Loader.Nodes.{
  Node, PortSpec, Cardinality, one, zero_or_one, peer_implements, port_exists,
}

abbrev pub Nodes : Type 0
Nodes = List (String × Node)

pub data ConnError : Type 0 where
  unknown_destination unknown_source : String → ConnError
  no_input_port required_unwired : String → String → ConnError
  expected_one expected_at_most_one : String → String → ℕ → ConnError
  wrong_role : String → String → String → String → ConnError

-- incoming[node][port], the sources wired to a port.
abbrev pub Incoming : Type 0
Incoming = String → String → List Node

-- The checks of one connection; the result is its source.
check_source : RawConn → Node → Option Node → Result ConnError Node
check_source c dst none = err (unknown_source c.from.node)
check_source c dst (some src) =
    if port_exists dst.spec.input_ports c.to.port
    then ok src
    else err (no_input_port c.to.node c.to.port)

check_destination : Nodes → RawConn → Option Node → Result ConnError Node
unfolding check_source
check_destination nodes c none = err (unknown_destination c.to.node)
check_destination nodes c (some dst) = check_source c dst (lookup c.from.node nodes)

unfoldable pub check_conn : Nodes → RawConn → Result ConnError Node
unfolding check_destination
check_conn nodes c = check_destination nodes c (lookup c.to.node nodes)

add_incoming : RawConn → Node → Incoming → Incoming
add_incoming c src inc n p =
    if c.to.node == n && c.to.port == p then inc n p ++ src ∷ [] else inc n p

-- The first loop: the errors of the connections, and what the others wire.
gather : Nodes → List RawConn → Incoming → List ConnError × Incoming
unfolding add_incoming
gather nodes [] inc = ([], inc)
gather nodes (c ∷ cs) inc = elim (check_conn nodes c) [
  | err e ↦ (let (es, inc') = gather nodes cs inc in (e ∷ es, inc'))
  | ok src ↦ gather nodes cs (add_incoming c src inc)
]

cardinality_errors : String → PortSpec → ℕ → Cardinality → List ConnError
cardinality_errors id p cnt one =
    if not (eqb cnt 1) && (p.required || ltb 1 cnt) then expected_one id p.name cnt ∷ [] else []
cardinality_errors id p cnt zero_or_one =
    if ltb 1 cnt then expected_at_most_one id p.name cnt ∷ [] else []
cardinality_errors id p cnt _ = []

required_errors : String → PortSpec → ℕ → List ConnError
required_errors id p cnt = if p.required && eqb cnt 0 then required_unwired id p.name ∷ [] else []

-- The id that an error names for a peer: the first node of the same type and role.
peer_id : Nodes → Node → String
peer_id [] target = "?"
peer_id ((id, n) ∷ nodes) target =
    if n.spec.type == target.spec.type && n.spec.role == target.spec.role
    then id
    else peer_id nodes target

role_errors : Nodes → String → PortSpec → List Node → List ConnError
unfolding peer_id
role_errors nodes id p [] = []
role_errors nodes id p (peer ∷ peers) =
    let rest = role_errors nodes id p peers in
    if peer_implements peer p.peer_role
    then rest
    else wrong_role id p.name (peer_id nodes peer) p.peer_role ∷ rest

unfoldable pub port_errors : Nodes → String → PortSpec → List Node → List ConnError
unfolding cardinality_errors required_errors role_errors
port_errors nodes id p peers =
    cardinality_errors id p (length peers) p.cardinality
    ++ (required_errors id p (length peers)
        ++ (if p.peer_role == "" then [] else role_errors nodes id p peers))

ports_errors : Nodes → Incoming → String → List PortSpec → List ConnError
ports_errors nodes inc id [] = []
ports_errors nodes inc id (p ∷ ps) =
    port_errors nodes id p (inc id p.name) ++ ports_errors nodes inc id ps

-- The second loop, over the nodes and their input ports.
pub nodes_errors : Nodes → Incoming → Nodes → List ConnError
unfolding ports_errors
nodes_errors nodes inc [] = []
nodes_errors nodes inc ((id, n) ∷ rest) =
    ports_errors nodes inc id n.spec.input_ports ++ nodes_errors nodes inc rest

unfoldable pub validate_connections : Nodes → List RawConn → List ConnError
unfolding gather nodes_errors
validate_connections nodes conns =
    let (errs, inc) = gather nodes conns (λ n p. []) in errs ++ nodes_errors nodes inc nodes
