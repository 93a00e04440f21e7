-- ===== src/Loader/Connections/Ports.antt =====
-- The errors of the ports, against what fits a port.
use ai_agent_go_service.Prelude.{
  append-eq-nil, ℕ, ◌≤◌, String, ◌==◌, ◌≡◌, refl, true, List, [], ◌∷◌, length, All, arith, ◌↔◌,
  Bool-cases, inl, inr,
}
use ai_agent_go_service.Loader.Nodes.{
  Node, PortSpec, Cardinality, one, zero_or_one, peer_implements,
}
use ai_agent_go_service.Loader.Connections.{
  Nodes, Incoming, cardinality_errors, required_errors, role_errors, port_errors, ports_errors,
  nodes_errors,
}
use ai_agent_go_service.Loader.Connections.Spec.{is_single, PortFits, NodesFit}

role_errors_iff :
    (nodes : Nodes) (id : String) (p : PortSpec) (peers : List Node)
    → (role_errors nodes id p peers ≡ []) ↔ All (λ n. peer_implements n p.peer_role ≡ true) peers
unfolding role_errors
role_errors_iff nodes id p [] = (λ h. tt, λ h. refl)
role_errors_iff nodes id p (n ∷ ns) =
    let (to, from) = role_errors_iff nodes id p ns in
    (λ h. (ground arith, to (ground arith)), λ h. rw h.0 (from h.1))

cardinality_fits :
    (id : String) (p : PortSpec) (cnt : ℕ) (card : Cardinality)
    → ((cardinality_errors id p cnt card ≡ []) × (required_errors id p cnt ≡ []))
      ↔ ((p.required ≡ true → 1 ≤ cnt) × (is_single card ≡ true → cnt ≤ 1))
unfolding cardinality_errors required_errors
cardinality_fits id p cnt one = (
  λ h. (λ r. ground arith, λ s. ground arith),
  λ h. (ground (arith, h.1 refl), ground (arith, h.0)),
)
cardinality_fits id p cnt zero_or_one = (
  λ h. (λ r. ground arith, λ s. ground arith),
  λ h. (ground (arith, h.1 refl), ground (arith, h.0)),
)
cardinality_fits id p cnt _ = (λ h. (λ r. ground arith, λ s. cc), λ h. (refl, ground (arith, h.0)))

port_errors_iff :
    (nodes : Nodes) (id : String) (p : PortSpec) (peers : List Node)
    → (port_errors nodes id p peers ≡ []) ↔ PortFits p peers
unfolding port_errors
port_errors_iff nodes id p peers = (
  λ h.
      let (card, rest) = append-eq-nil (cardinality_errors id p (length peers) p.cardinality) _ h in
      let (req, roles) = append-eq-nil (required_errors id p (length peers)) _ rest in
      let (required, single) = (cardinality_fits id p (length peers) p.cardinality).0 (card, req) in
      record {
        wired_if_required = required;
        single = single;
        roles = λ named. (role_errors_iff nodes id p peers).0 (rw named at roles);
      },
  λ f.
      let (card, req) =
        (cardinality_fits id p (length peers) p.cardinality).1 (f.wired_if_required, f.single) in
      rw (card, req)
        (elim (Bool-cases (p.peer_role == "")) [
          | inl any ↦ rw any
          | inr named ↦ rw named ((role_errors_iff nodes id p peers).1 (f.roles named))
        ]),
)

ports_errors_iff :
    (nodes : Nodes) (inc : Incoming) (id : String) (ps : List PortSpec)
    → (ports_errors nodes inc id ps ≡ []) ↔ All (λ p. PortFits p (inc id p.name)) ps
unfolding ports_errors
ports_errors_iff nodes inc id [] = (λ h. tt, λ h. refl)
ports_errors_iff nodes inc id (p ∷ ps) =
    let (to, from) = port_errors_iff nodes id p (inc id p.name) in
    let (to', from') = ports_errors_iff nodes inc id ps in
    (
      λ h. let (a, b) = append-eq-nil (port_errors nodes id p (inc id p.name)) _ h in (to a, to' b),
      λ h. rw (from h.0, from' h.1),
    )

pub nodes_errors_iff :
    (nodes : Nodes) (inc : Incoming) (rest : Nodes)
    → (nodes_errors nodes inc rest ≡ []) ↔ NodesFit inc rest
unfolding nodes_errors
nodes_errors_iff nodes inc [] = (λ h. tt, λ h. refl)
nodes_errors_iff nodes inc ((id, n) ∷ rest) =
    let (to, from) = ports_errors_iff nodes inc id n.spec.input_ports in
    let (to', from') = nodes_errors_iff nodes inc rest in
    (
      λ h.
          let (a, b) = append-eq-nil (ports_errors nodes inc id n.spec.input_ports) _ h in
          (to a, to' b),
      λ h. rw (from h.0, from' h.1),
    )
