-- ===== src/Loader/Load.antt =====
-- LoadOne of loader.go: a workflow file becomes a graph of nodes that have all been initialised.
pub mod Built
pub mod Laws
pub mod Examples
use ai_agent_go_service.Prelude.{
  String, ◌==◌, Bool, true, false, List, [], ◌∷◌, ◌++◌, Option, some, none, map, if◌then◌else◌,
  Result, ok, err, ◌>>=◌,
}
use ai_agent_go_service.Json.{Value, text, Fields, get}
use ai_agent_go_service.Loader.Types.{RawConn, lookup, keys}
use ai_agent_go_service.Loader.Nodes.{Node}
use ai_agent_go_service.Loader.Env.{ResolveError, resolve}
use ai_agent_go_service.Loader.Sensitive.{Names, SensitiveError, validate_sensitive_fields}
use ai_agent_go_service.Loader.Envelope.{RawNode, RawWorkflow, EnvelopeError, validate_envelope}
use ai_agent_go_service.Loader.Overrides.{Services, apply_overrides}
use ai_agent_go_service.Loader.RetryBlocks.{RetryBlock, RetryError, parse_retry_by_node}
use ai_agent_go_service.Loader.Connections.{Nodes, ConnError, validate_connections}
use ai_agent_go_service.Loader.Topo.{TopoError, topo_order}

pub data LoadError (E : Type 0) : Type 0 where
  not_json : String → LoadError E
  unresolved : List ResolveError → LoadError E
  has_sensitive : List SensitiveError → LoadError E
  not_decoded : String → LoadError E
  bad_envelope : List EnvelopeError → LoadError E
  unknown_type : String → String → LoadError E
  factory_failed init_failed : String → String → LoadError E
  bad_retry : RetryError E → LoadError E
  bad_template : String → String → String → LoadError E
  bad_connections : List ConnError → LoadError E
  no_order : TopoError → LoadError E
  not_a_trigger : String → LoadError E

-- `initialised` lists the nodes in the order in which Init was called.
pub record LoadResult (P : Type 0) : Type 0 where
  pub id : String
  pub trigger : String
  pub nodes : Nodes
  pub order : List String
  pub connections : List RawConn
  pub retry_by_node : List (String × P)
  pub initialised : List String

-- JSON and ParsePolicy, the order in which a map of nodes is iterated, and Init, whose answer may
-- depend on the nodes that were initialised before.
pub record Loader (E P : Type 0) : Type 0 where
  pub services : Services
  pub names : Names
  pub parse : String → Result String Value
  pub decode : Value → Result String RawWorkflow
  pub parse_policy : String → Result E (Option P)
  pub iterate : List String → List String
  pub init : List String → String → (String → List (Option Node)) → Option String
  pub is_trigger : Node → Bool

-- `nodes[id] = instance`
unfoldable pub add_node : String → Node → Nodes → Nodes
add_node id n [] = (id, n) ∷ []
add_node id n ((j, m) ∷ ns) = elim (j == id) [
  | true ↦ (j, n) ∷ ns
  | false ↦ (j, m) ∷ add_node id n ns
]

-- The peers that a port of a node resolves to; a node that is absent is nil.
unfoldable pub make_peer_resolver : String → Nodes → List RawConn → String → List (Option Node)
make_peer_resolver for_node nodes [] port = []
make_peer_resolver for_node nodes (c ∷ cs) port =
    let rest = make_peer_resolver for_node nodes cs port in
    if c.to.node == for_node
    then if c.to.port == port then lookup c.from.node nodes ∷ rest else rest
    else rest

module _ {E P : Type 0} (loader : Loader E P) where
  open loader use {services, names, parse, decode, parse_policy, iterate, init, is_trigger}

  pub none_of : {A X : Type 0} → (List X → LoadError E) → List X → A → Result (LoadError E) A
  none_of wrong [] a = ok a
  none_of wrong (x ∷ xs) a = err (wrong (x ∷ xs))

  made : RawNode → Result String Node → Result (LoadError E) Node
  made n (err e) = err (factory_failed n.id e)
  made n (ok instance') = ok instance'

  instance_of : RawNode → Option (String → Result String Node) → Result (LoadError E) Node
  unfolding made
  instance_of n none = err (unknown_type n.id n.type)
  instance_of n (some make) = made n (make n.config)

  pub build_nodes : String → List RawNode → Nodes → Result (LoadError E) Nodes
  unfolding instance_of
  build_nodes workflow [] nodes = ok nodes
  build_nodes workflow (n ∷ ns) nodes = instance_of n (services.registry n.type) >>= λ instance'.
      build_nodes workflow ns (add_node n.id (apply_overrides services workflow n instance') nodes)

  retry_blocks : List RawNode → List RetryBlock
  retry_blocks [] = []
  retry_blocks (n ∷ ns) = record { id = n.id; retry = n.retry } ∷ retry_blocks ns

  retries : Result (RetryError E) (List (String × P)) → Result (LoadError E) (List (String × P))
  retries (ok ps) = ok ps
  retries (err e) = err (bad_retry e)

  check_field : String → String → Option Value → Result (LoadError E) (List String)
  check_field id name (some (text s)) = elim (services.is_template s) [
    | some e ↦ err (bad_template id name e)
    | none ↦ ok []
  ]
  check_field id name _ = ok []

  validate_allowed_templates :
      String → Option Fields → List String → Result (LoadError E) (List String)
  unfolding check_field
  validate_allowed_templates id none allowed = ok []
  validate_allowed_templates id (some m) [] = ok []
  validate_allowed_templates id (some m) (name ∷ allowed) =
      check_field id name (get name m) >>= λ x. validate_allowed_templates id (some m) allowed

  allowed_of : Option Node → List String
  allowed_of none = []
  allowed_of (some n) = n.spec.allowed_templates

  check_templates : Nodes → List RawNode → Result (LoadError E) (List String)
  unfolding validate_allowed_templates allowed_of
  check_templates nodes [] = ok []
  check_templates nodes (n ∷ ns) =
      validate_allowed_templates n.id
        (if n.config == "" then none else services.decode_fields n.config)
        (allowed_of (lookup n.id nodes))
      >>= λ x. check_templates nodes ns

  ordered : Result TopoError (List String) → Result (LoadError E) (List String)
  ordered (ok order) = ok order
  ordered (err e) = err (no_order e)

  init_node : String → Option String → Result (LoadError E) (List String)
  init_node id none = ok []
  init_node id (some e) = err (init_failed id e)

  pub init_nodes :
      Nodes → List RawConn → List String → List String → Result (LoadError E) (List String)
  unfolding init_node
  init_nodes nodes conns done [] = ok done
  init_nodes nodes conns done (id ∷ ids) =
      init_node id (init done id (make_peer_resolver id nodes conns)) >>= λ x.
      init_nodes nodes conns (done ++ id ∷ []) ids

  trigger_of : String → Option Node → Result (LoadError E) String
  trigger_of id none = err (not_a_trigger id)
  trigger_of id (some n) = if is_trigger n then ok id else err (not_a_trigger id)

  finish_load :
      RawWorkflow
      → Nodes
      → List (String × P)
      → List String
      → List String
      → Result (LoadError E) (LoadResult P)
  unfolding trigger_of
  finish_load w nodes policies order done =
      trigger_of w.trigger (lookup w.trigger nodes) >>= λ trigger. ok (record {
        id = w.id;
        trigger = trigger;
        nodes = nodes;
        order = order;
        connections = w.connections;
        retry_by_node = policies;
        initialised = done;
      })

  -- Init is called on the nodes in their order.
  with_order :
      RawWorkflow → Nodes → List (String × P) → List String → Result (LoadError E) (LoadResult P)
  unfolding init_nodes finish_load
  with_order w nodes policies order =
      init_nodes nodes w.connections [] order >>= λ done. finish_load w nodes policies order done

  with_retries : RawWorkflow → Nodes → List (String × P) → Result (LoadError E) (LoadResult P)
  unfolding check_templates none_of ordered with_order
  with_retries w nodes policies = check_templates nodes w.nodes >>= λ checked.
      none_of bad_connections (validate_connections nodes w.connections) nodes >>= λ valid.
      ordered (topo_order (iterate (keys nodes)) w.connections) >>= λ order.
      with_order w nodes policies order

  with_nodes : RawWorkflow → Nodes → Result (LoadError E) (LoadResult P)
  unfolding retries retry_blocks with_retries
  with_nodes w nodes =
      retries (parse_retry_by_node parse_policy (retry_blocks w.nodes) nodes) >>= λ policies.
      with_retries w nodes policies

  -- From the decoded envelope on.
  unfoldable pub load_workflow : RawWorkflow → Result (LoadError E) (LoadResult P)
  unfolding none_of build_nodes with_nodes
  load_workflow w = none_of bad_envelope (validate_envelope w) w >>= λ w'.
      build_nodes w.id w.nodes [] >>= λ nodes. with_nodes w nodes

  parsed : Result String Value → Result (LoadError E) Value
  parsed (ok v) = ok v
  parsed (err e) = err (not_json e)

  decoded : Result String RawWorkflow → Result (LoadError E) RawWorkflow
  decoded (ok w) = ok w
  decoded (err e) = err (not_decoded e)

  unfoldable pub load_one : String → Result (LoadError E) (LoadResult P)
  unfolding parsed decoded none_of
  load_one raw = parsed (parse raw) >>= λ doc.
      let (resolved, errs) = resolve services.env doc in
      none_of unresolved errs resolved >>= λ v.
      none_of has_sensitive (validate_sensitive_fields names v) v >>= λ clean.
      decoded (decode clean) >>= λ w. load_workflow w
