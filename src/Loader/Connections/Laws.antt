-- ===== src/Loader/Connections/Laws.antt =====
-- When the connections of a workflow are valid.
use ai_agent_go_service.Prelude.{
  append-eq-nil, String, ◌==◌, ◌≡◌, refl, sym, ◌∙◌, subst, fun_ext, ◌<◌, true, ◌&&◌, List, [], ◌∷◌,
  ◌++◌, some, ok, err, if◌then◌else◌, All, arith, ◌↔◌, Option-cases, Result-cases, Bool-cases, inl,
  inr, count,
}
use ai_agent_go_service.Prelude.Counting.{is_distinct, count-le_one}
use ai_agent_go_service.Loader.Topo.Invariant.{WellFormed}
use mathlib.Core.List.{append-nil, append_assoc}
use ai_agent_go_service.Loader.Types.{RawConn, lookup, keys}
use ai_agent_go_service.Loader.Nodes.{Node}
use ai_agent_go_service.Loader.Connections.{
  Nodes, ConnError, Incoming, check_conn, add_incoming, gather, validate_connections,
}
use ai_agent_go_service.Loader.Connections.Spec.{Joins, wired, wired_source, NodesFit}
use ai_agent_go_service.Loader.Connections.Ports.{nodes_errors_iff}

check_conn-Joins :
    (nodes : Nodes) (c : RawConn) (src : Node) → check_conn nodes c ≡ ok src → Joins nodes c
unfolding check_conn
check_conn-Joins nodes c src h = elim (Option-cases (lookup c.to.node nodes)) [
  | inl missing ↦ absurd (ground arith)
  | inr (dst, e) ↦ elim (Option-cases (lookup c.from.node nodes)) [
    | inl missing ↦ absurd (ground arith)
    | inr (from, e') ↦ record {
      destination = dst;
      source = from;
      has_destination = e;
      has_source = e';
      has_port = ground arith;
    }
  ]
]

Joins-check_conn :
    (nodes : Nodes) (c : RawConn) (j : Joins nodes c) → check_conn nodes c ≡ ok j.source
unfolding check_conn
Joins-check_conn nodes c j = ground (arith, j.has_destination, j.has_source, j.has_port)

gather_ok :
    (nodes : Nodes) (c : RawConn) (cs : List RawConn) (inc : Incoming) (src : Node)
    → check_conn nodes c ≡ ok src
    → gather nodes (c ∷ cs) inc ≡ gather nodes cs (add_incoming c src inc)
unfolding gather
gather_ok nodes c cs inc src e = rw (e, gather)

gather_err :
    (nodes : Nodes) (c : RawConn) (cs : List RawConn) (inc : Incoming) (e : ConnError)
    → check_conn nodes c ≡ err e
    → (gather nodes (c ∷ cs) inc).0 ≡ e ∷ (gather nodes cs inc).0
unfolding gather
gather_err nodes c cs inc e h = rw (h, gather)

-- The first loop has no error exactly if every connection joins two nodes.
gather-Joins :
    (nodes : Nodes) (cs : List RawConn) (inc : Incoming)
    → (gather nodes cs inc).0 ≡ []
    → All (Joins nodes) cs
gather-Joins nodes [] inc h = tt
gather-Joins nodes (c ∷ cs) inc h = elim (Result-cases (check_conn nodes c)) [
  | inl (src, e) ↦ (
    check_conn-Joins nodes c src e,
    gather-Joins nodes cs (add_incoming c src inc) (rw (gather_ok nodes c cs inc src e) at h),
  )
  | inr (x, e) ↦ absurd (ground (arith, gather_err nodes c cs inc x e))
]

add_wired :
    (nodes : Nodes) (c : RawConn) (src : Node) (inc : Incoming) (n p : String) (rest : List Node)
    → lookup c.from.node nodes ≡ some src
    → add_incoming c src inc n p ++ rest
      ≡ inc n p
        ++ (if c.to.node == n && c.to.port == p
            then wired_source (lookup c.from.node nodes) ++ rest
            else rest)
unfolding add_incoming wired_source
add_wired nodes c src inc n p rest e = elim (Bool-cases (c.to.node == n && c.to.port == p)) [
  | inl here ↦ rw (here, e) (append_assoc (inc n p) (src ∷ []) rest)
  | inr there ↦ rw there
]

gather-wired :
    (nodes : Nodes) (cs : List RawConn) (inc : Incoming) (n p : String)
    → All (Joins nodes) cs
    → ((gather nodes cs inc).0 ≡ []) × ((gather nodes cs inc).1 n p ≡ inc n p ++ wired nodes cs n p)
unfolding wired
gather-wired nodes [] inc n p h = (unfold gather in refl, unfold gather in rw append-nil)
gather-wired nodes (c ∷ cs) inc n p h =
    let src = h.0.source in
    let (a, b) = gather-wired nodes cs (add_incoming c src inc) n p h.1 in
    rw (gather_ok nodes c cs inc src (Joins-check_conn nodes c h.0))
      (a, b ∙ add_wired nodes c src inc n p (wired nodes cs n p) h.0.has_source)

incoming-eq-wired :
    (nodes : Nodes) (cs : List RawConn)
    → All (Joins nodes) cs
    → (gather nodes cs (λ n p. [])).1 ≡ wired nodes cs
incoming-eq-wired nodes cs j =
    fun_ext (λ n. fun_ext (λ p. (gather-wired nodes cs (λ n p. []) n p j).1))

-- The connections of a workflow are valid exactly if each joins two nodes at an input port, and
-- each port of each node fits the nodes wired to it: a required port has one, a single port at
-- most one, and all have the port's role.
pub validate_connections_iff :
    (nodes : Nodes) (cs : List RawConn)
    → (validate_connections nodes cs ≡ [])
      ↔ (All (Joins nodes) cs × NodesFit (wired nodes cs) nodes)
unfolding validate_connections
validate_connections_iff nodes cs = (
  λ h.
      let (a, b) = append-eq-nil (gather nodes cs (λ n p. [])).0 _ h in
      let j = gather-Joins nodes cs (λ n p. []) a in
      (
        j,
        subst (λ inc. NodesFit inc nodes) (incoming-eq-wired nodes cs j)
            ((nodes_errors_iff nodes _ nodes).0 b),
      ),
  λ h. rw (
    (gather-wired nodes cs (λ n p. []) "" "" h.0).0,
    (nodes_errors_iff nodes _ nodes).1
        (subst (λ inc. NodesFit inc nodes) (sym (incoming-eq-wired nodes cs h.0)) h.1),
  ),
)

lookup-count :
    (id : String) (nodes : Nodes) (n : Node) → lookup id nodes ≡ some n → 0 < count id (keys nodes)
lookup-count id [] n h = absurd (ground arith)
lookup-count id ((j, m) ∷ nodes) n h = ground (arith, lookup-count id nodes n)

Joins-known :
    (nodes : Nodes) (cs : List RawConn)
    → is_distinct (keys nodes) ≡ true
    → All (Joins nodes) cs
    → All (λ c. (count c.from.node (keys nodes) ≡ 1) × (count c.to.node (keys nodes) ≡ 1)) cs
Joins-known nodes [] d j = tt
Joins-known nodes (c ∷ cs) d j = (
  (
    omega (
      arith,
      lookup-count c.from.node nodes _ j.0.has_source,
      count-le_one (keys nodes) c.from.node d,
    ),
    omega (
      arith,
      lookup-count c.to.node nodes _ j.0.has_destination,
      count-le_one (keys nodes) c.to.node d,
    ),
  ),
  Joins-known nodes cs d j.1,
)

-- If the ids of the nodes are distinct and their connections valid, the graph is well formed:
-- each id stands once, and every connection joins two of them.
pub valid-WellFormed :
    (nodes : Nodes) (cs : List RawConn)
    → is_distinct (keys nodes) ≡ true
    → validate_connections nodes cs ≡ []
    → WellFormed (keys nodes) cs
valid-WellFormed nodes cs d h = record {
  distinct = λ v. count-le_one (keys nodes) v d;
  known = Joins-known nodes cs d ((validate_connections_iff nodes cs).0 h).0;
}
