-- ===== src/Loader/Load/Laws.antt =====
-- What holds of a workflow that was loaded.
use ai_agent_go_service.Prelude.{
  ◌≡◌, refl, ap, subst, ◌∙◌, String, ◌==◌, true, List, [], ◌∷◌, Option, some, count, All,
  Bool-cases, inl, inr, arith, Result, ok, err, ◌>>=◌,
}
use ai_agent_go_service.Prelude.Counting.{is_distinct}
use ai_agent_go_service.Json.{Value}
use ai_agent_go_service.Loader.Env.{resolve}
use ai_agent_go_service.Loader.Sensitive.{validate_sensitive_fields}
use ai_agent_go_service.Loader.Types.{RawConn, lookup, keys}
use ai_agent_go_service.Loader.Nodes.{Node}
use ai_agent_go_service.Loader.Envelope.{RawWorkflow, validate_envelope}
use ai_agent_go_service.Loader.RetryBlocks.{parse_retry_by_node}
use ai_agent_go_service.Loader.Connections.{Nodes, validate_connections}
use ai_agent_go_service.Loader.Connections.Spec.{Joins}
use ai_agent_go_service.Loader.Connections.Laws.{validate_connections_iff, valid-WellFormed}
use ai_agent_go_service.Loader.Topo.{TopoError, topo_order}
use ai_agent_go_service.Loader.Topo.Invariant.{RunsInOrder, WellFormed}
use ai_agent_go_service.Loader.Topo.Order.{topo_order_sound}
use ai_agent_go_service.Loader.Load.{
  LoadError, bad_connections, LoadResult, unresolved, has_sensitive, parsed, decoded, Loader,
  make_peer_resolver, bad_envelope, none_of, build_nodes, retry_blocks, retries, check_templates,
  ordered, init_nodes, trigger_of, finish_load, with_order, with_retries, with_nodes, load_workflow,
  load_one,
}
use ai_agent_go_service.Loader.Load.Built.{
  bind_ok, ok_inj, none_of-ok, is_distinct-build_nodes, init_nodes-ok,
}

-- An order of iteration over a map lists the keys, each as often.
abbrev pub IsOrder : (List String → List String) → Type 0
IsOrder iterate = (ids : List String) (v : String) → count v (iterate ids) ≡ count v ids

abbrev pub Found : Option Node → Type 0
Found o = (n : Node) × (o ≡ some n)

-- A node with valid connections is never given a peer that is nil.
peers-Found :
    (id : String) (nodes : Nodes) (cs : List RawConn) (port : String)
    → All (Joins nodes) cs
    → All Found (make_peer_resolver id nodes cs port)
unfolding make_peer_resolver
peers-Found id nodes [] port h = tt
peers-Found id nodes (c ∷ cs) port (j, h) = elim (Bool-cases (c.to.node == id)) [
  | inl t ↦ rw t (elim (Bool-cases (c.to.port == port)) [
    | inl q ↦ rw q ((j.source, j.has_source), peers-Found id nodes cs port h)
    | inr g ↦ rw g (peers-Found id nodes cs port h)
  ])
  | inr f ↦ rw f (peers-Found id nodes cs port h)
]

-- A workflow that is ready to run.
pub record Ready {P : Type 0} (r : LoadResult P) : Type 0 where
  pub joined : All (Joins r.nodes) r.connections
  pub peers_found :
      (id port : String) → All Found (make_peer_resolver id r.nodes r.connections port)
  pub each_once : (v : String) → count v r.initialised ≡ count v (keys r.nodes)
  pub peers_first : RunsInOrder r.connections [] r.initialised

known_in :
    (ids ids' : List String) (cs : List RawConn)
    → ((v : String) → count v ids' ≡ count v ids)
    → All (λ c. (count c.from.node ids ≡ 1) × (count c.to.node ids ≡ 1)) cs
    → All (λ c. (count c.from.node ids' ≡ 1) × (count c.to.node ids' ≡ 1)) cs
known_in ids ids' [] same h = tt
known_in ids ids' (c ∷ cs) same ((f, t), h) =
    ((same c.from.node ∙ f, same c.to.node ∙ t), known_in ids ids' cs same h)

module _ {E P : Type 0} (loader : Loader E P) (is_order : IsOrder loader.iterate) where
  arranged-WellFormed :
      (ids : List String) (cs : List RawConn)
      → WellFormed ids cs
      → WellFormed (loader.iterate ids) cs
  arranged-WellFormed ids cs wf = record {
    distinct = λ v. rw (is_order ids v) (wf.distinct v);
    known = known_in ids (loader.iterate ids) cs (is_order ids) wf.known;
  }

  finish_load-Ready :
      (w : RawWorkflow) (nodes : Nodes) (policies : List (String × P)) (order done : List String)
      (r : LoadResult P)
      → finish_load loader w nodes policies order done ≡ ok r
      → All (Joins nodes) w.connections
      → ((v : String) → count v done ≡ count v (keys nodes))
      → RunsInOrder w.connections [] done
      → Ready r
  unfolding finish_load
  finish_load-Ready w nodes policies order done r h joined once first =
      let loaded : String → LoadResult P = λ t. record {
        id = w.id;
        trigger = t;
        nodes = nodes;
        order = order;
        connections = w.connections;
        retry_by_node = policies;
        initialised = done;
      } in
      let (trigger, e, k) =
        bind_ok (trigger_of loader w.trigger (lookup w.trigger nodes)) (λ t. ok (loaded t)) r h in
      subst (λ x. Ready x) (ok_inj (loaded trigger) r k)
        (record {
          joined = joined;
          peers_found = λ id port. peers-Found id nodes w.connections port joined;
          each_once = once;
          peers_first = first;
        })

  with_order-Ready :
      (w : RawWorkflow) (nodes : Nodes) (policies : List (String × P)) (order : List String)
      (r : LoadResult P)
      → with_order loader w nodes policies order ≡ ok r
      → All (Joins nodes) w.connections
      → ((v : String) → count v order ≡ count v (keys nodes))
      → RunsInOrder w.connections [] order
      → Ready r
  unfolding with_order
  with_order-Ready w nodes policies order r h joined once first =
      let (done, e, k) =
        bind_ok (init_nodes loader nodes w.connections [] order)
          (λ done. finish_load loader w nodes policies order done) r h in
      let same : order ≡ done = init_nodes-ok loader nodes w.connections [] order done e in
      finish_load-Ready w nodes policies order done r k joined
        (subst (λ o. (v : String) → count v o ≡ count v (keys nodes)) same once)
        (subst (λ o. RunsInOrder w.connections [] o) same first)

  ordered-ok :
      (x : Result TopoError (List String)) (order : List String)
      → ordered loader x ≡ ok order
      → x ≡ ok order
  unfolding ordered
  ordered-ok (ok o) order h = ap (λ y. ok y) (ok_inj o order h)
  ordered-ok (err e) order h = absurd (ground (arith, h))

  with_retries-Ready :
      (w : RawWorkflow) (nodes : Nodes) (policies : List (String × P)) (r : LoadResult P)
      → with_retries loader w nodes policies ≡ ok r
      → is_distinct (keys nodes) ≡ true
      → Ready r
  unfolding with_retries
  with_retries-Ready w nodes policies r h d =
      let ids = loader.iterate (keys nodes) in
      let on_order : List String → Result (LoadError E) (LoadResult P) =
        λ order. with_order loader w nodes policies order in
      let on_valid : Nodes → Result (LoadError E) (LoadResult P) =
        λ valid. ordered loader (topo_order ids w.connections) >>= on_order in
      let tested =
        none_of loader bad_connections (validate_connections nodes w.connections) nodes in
      let (checked, e1, k1) =
        bind_ok (check_templates loader nodes w.nodes) (λ checked. tested >>= on_valid) r h in
      let (valid, e2, k2) = bind_ok tested on_valid r k1 in
      let (order, e3, k3) = bind_ok (ordered loader (topo_order ids w.connections)) on_order r k2 in
      let no_errors = none_of-ok loader bad_connections _ nodes valid e2 in
      let wf =
        arranged-WellFormed (keys nodes) w.connections
          (valid-WellFormed nodes w.connections d no_errors) in
      let (first, once) = topo_order_sound ids w.connections wf order (ordered-ok _ order e3) in
      with_order-Ready w nodes policies order r k3
        ((validate_connections_iff nodes w.connections).0 no_errors).0
        (λ v. once v ∙ is_order (keys nodes) v) first

  load_workflow-Ready :
      (w : RawWorkflow) (r : LoadResult P) → load_workflow loader w ≡ ok r → Ready r
  unfolding load_workflow with_nodes
  load_workflow-Ready w r h =
      let built = build_nodes loader w.id w.nodes [] in
      let on_built : Nodes → Result (LoadError E) (LoadResult P) =
        λ nodes. with_nodes loader w nodes in
      let (w', e1, k1) =
        bind_ok (none_of loader bad_envelope (validate_envelope w) w) (λ w'. built >>= on_built) r
          h in
      let (nodes, e2, k2) = bind_ok built on_built r k1 in
      let (policies, e3, k3) =
        bind_ok
          (retries loader
            (parse_retry_by_node loader.parse_policy (retry_blocks loader w.nodes) nodes))
          (λ policies. with_retries loader w nodes policies) r k2 in
      with_retries-Ready w nodes policies r k3
        (is_distinct-build_nodes loader w.id w.nodes [] nodes refl e2)

  -- If the map of nodes is iterated in some order of its keys, a workflow file that loads is ready to
  -- run: every connection joins an input port of one node to another node, no port of a node has a
  -- peer that is nil, and Init was called once on each node, on none before the nodes that its
  -- connections come from.
  pub load_one-Ready : (raw : String) (r : LoadResult P) → load_one loader raw ≡ ok r → Ready r
  unfolding load_one
  load_one-Ready raw r h =
      let on_clean : Value → Result (LoadError E) (LoadResult P) =
        λ clean. decoded loader (loader.decode clean) >>= λ w. load_workflow loader w in
      let on_resolved : Value → Result (LoadError E) (LoadResult P) = λ v.
        none_of loader has_sensitive (validate_sensitive_fields loader.names v) v >>= on_clean in
      let (doc, e1, k1) =
        bind_ok (parsed loader (loader.parse raw))
          (λ doc.
            let (resolved, errs) = resolve loader.services.env doc in
            none_of loader unresolved errs resolved >>= on_resolved)
          r h in
      let (resolved, errs) = resolve loader.services.env doc in
      let (v, e2, k2) = bind_ok (none_of loader unresolved errs resolved) on_resolved r k1 in
      let (clean, e3, k3) =
        bind_ok (none_of loader has_sensitive (validate_sensitive_fields loader.names v) v) on_clean
          r k2 in
      let (w, e4, k4) =
        bind_ok (decoded loader (loader.decode clean)) (λ w. load_workflow loader w) r k3 in
      load_workflow-Ready w r k4
