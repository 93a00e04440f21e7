-- ===== src/Loader/Nodes.antt =====
-- The nodes of pkg/workflow/node as the loader sees them: a specification, and which of the
-- role interfaces the Go value implements.
use ai_agent_go_service.Prelude.{
  String, ◌==◌, Bool, true, false, not, ◌||◌, List, [], ◌∷◌, Option, some, none, if◌then◌else◌,
}

-- Any other number than the three named ones is `unset`.
pub data Cardinality : Type 0 where
  one zero_or_one zero_or_many unset : Cardinality

pub record PortSpec : Type 0 where
  pub name : String
  pub cardinality : Cardinality
  pub required : Bool
  pub peer_role : String

pub record NodeSpec : Type 0 where
  pub type : String
  pub role : String
  pub input_ports : List PortSpec
  pub allowed_templates : List String
  pub overridable_fields : List String

pub data Interface : Type 0 where
  trigger llm_provider memory tool agent policy : Interface

pub record Node : Type 0 where
  pub spec : NodeSpec
  pub implements : Interface → Bool

-- The `switch` on the role.
interface_of : String → Option Interface
interface_of role =
    if role == "trigger"
    then some trigger
    else if role == "llm"
    then some llm_provider
    else if role == "memory"
    then some memory
    else if role == "tool"
    then some tool
    else if role == "agent"
    then some agent
    else if role == "policy"
    then some policy
    else none

implements_some : Node → Option Interface → Bool
implements_some n none = false
implements_some n (some i) = n.implements i

-- A declared role decides alone; a node without one is asked for the interface.
unfoldable pub peer_implements : Node → String → Bool
unfolding interface_of implements_some
peer_implements n role =
    if n.spec.role == role
    then true
    else if not (n.spec.role == "")
    then false
    else implements_some n (interface_of role)

unfoldable pub port_exists : List PortSpec → String → Bool
port_exists [] name = false
port_exists (p ∷ ps) name = p.name == name || port_exists ps name
