-- ===== src/Loader/Envelope/Laws.antt =====
-- Which envelopes are accepted.
use ai_agent_go_service.Prelude.{
  append-eq-nil, ℕ, suc, ◌+◌, ◌≤◌, ◌<◌, String, ◌==◌, eq_iff, eq_refl, ◌≡◌, ◌≢◌, refl, sym, subst,
  Bool, true, false, not, List, [], ◌∷◌, ◌++◌, elem, count, All, arith, ◌↔◌, Bool-cases, inl, inr,
}
use ai_agent_go_service.Prelude.Counting.{count_of_elem, count_of_not_elem, elem_of_count}
use ai_agent_go_service.Prelude.Int.{pos, eqb_ℤ, eqb_ℤ→eq}
use ai_agent_go_service.Loader.Types.{RawConn}
use ai_agent_go_service.Loader.Envelope.{
  RawNode, RawWorkflow, EnvelopeError, id_required, version_required, version_unsupported,
  trigger_required, nodes_required, connections_required, trigger_unknown, report, is_empty,
  check_nodes, check_connection, check_connections, validate_envelope,
}

abbrev pub ids_of : List RawNode → List String
ids_of [] = []
ids_of (n ∷ ns) = n.id ∷ ids_of ns

abbrev pub IsNamed : RawNode → Type 0
IsNamed n = (n.id ≢ "") × (n.type ≢ "")

-- Both ends name a port of a node of the workflow.
pub record IsWired (ids : List String) (c : RawConn) : Type 0 where
  pub from_port : c.from.port ≢ ""
  pub to_port : c.to.port ≢ ""
  pub from_node : 0 < count c.from.node ids
  pub to_node : 0 < count c.to.node ids

pub record IsEnvelope (w : RawWorkflow) : Type 0 where
  pub has_id : w.id ≢ ""
  pub version_one : w.version ≡ pos 1
  pub named : All IsNamed w.nodes
  pub distinct : (v : String) → count v (ids_of w.nodes) ≤ 1
  pub trigger_known : 0 < count w.trigger (ids_of w.nodes)
  pub connected : w.connections ≢ []
  pub wired : All (IsWired (ids_of w.nodes)) w.connections

not_empty :
    (ids : List String) (v : String) → (0 < count "" ids → ⊥) → 0 < count v ids → (v == "") ≡ false
not_empty ids v named h = elim (Bool-cases (v == "")) [
  | inl e ↦ absurd (named (subst (λ x. 0 < count x ids) ((eq_iff v "").0 e) h))
  | inr e ↦ e
]

report-split :
    (b : Bool) (e : EnvelopeError) (es : List EnvelopeError)
    → report b e ++ es ≡ []
    → (b ≡ false) × (es ≡ [])
unfolding report
report-split true e es h = absurd (ground arith)
report-split false e es h = (refl, h)

IsWired-iff :
    (i : ℕ) (ids seen : List String) (c : RawConn)
    → ((v : String) → count v seen ≡ count v ids)
    → (0 < count "" ids → ⊥)
    → (check_connection i seen c ≡ []) ↔ IsWired ids c
unfolding check_connection
IsWired-iff i ids seen c same named = (
  λ h. record {
    from_port = ground (arith, eq_iff c.from.port "");
    to_port = ground (arith, eq_iff c.to.port "");
    from_node = ground (arith, same c.from.node, count_of_elem c.from.node seen);
    to_node = ground (arith, same c.to.node, count_of_elem c.to.node seen);
  },
  λ w.
      let fp : (c.from.port == "") ≡ false = ground (arith, eq_iff c.from.port "", w.from_port) in
      let tp : (c.to.port == "") ≡ false = ground (arith, eq_iff c.to.port "", w.to_port) in
      let fn : (c.from.node == "") ≡ false = not_empty ids c.from.node named w.from_node in
      let tn : (c.to.node == "") ≡ false = not_empty ids c.to.node named w.to_node in
      let fs : elem c.from.node seen ≡ true =
        elem_of_count c.from.node seen (omega (arith, same c.from.node, w.from_node)) in
      let ts : elem c.to.node seen ≡ true =
        elem_of_count c.to.node seen (omega (arith, same c.to.node, w.to_node)) in
      rw (fp, tp, fn, tn, fs, ts),
)

connections_iff :
    (i : ℕ) (ids seen : List String) (cs : List RawConn)
    → ((v : String) → count v seen ≡ count v ids)
    → (0 < count "" ids → ⊥)
    → (check_connections i seen cs ≡ []) ↔ All (IsWired ids) cs
unfolding check_connections
connections_iff i ids seen [] same named = (λ h. tt, λ h. refl)
connections_iff i ids seen (c ∷ cs) same named =
    let (to, from) = IsWired-iff i ids seen c same named in
    let (to', from') = connections_iff (suc i) ids seen cs same named in
    (
      λ h. let (a, b) = append-eq-nil (check_connection i seen c) _ h in (to a, to' b),
      λ h. rw (from h.0, from' h.1),
    )

-- The ids that the loop has seen at its end, if it had no error.
check_nodes-seen :
    (i : ℕ) (seen : List String) (ns : List RawNode) (v : String)
    → All IsNamed ns
    → count v (check_nodes i seen ns).1 ≡ count v seen + count v (ids_of ns)
unfolding check_nodes
check_nodes-seen i seen [] v h = omega arith
check_nodes-seen i seen (n ∷ ns) v h =
    ground (arith, check_nodes-seen (suc i) (n.id ∷ seen) ns v h.1, h.0, eq_iff n.id "")

named_ne_empty :
    (ns : List RawNode) (v : String) → All IsNamed ns → 0 < count v (ids_of ns) → v ≢ ""
named_ne_empty [] v h k e = absurd (omega arith)
named_ne_empty (n ∷ ns) v h k e = ground (arith, named_ne_empty ns v h.1, h.0, eq_iff n.id v, e)

check_nodes-empty :
    (i : ℕ) (seen : List String) (n : RawNode) (ns : List RawNode)
    → (check_nodes i seen (n ∷ ns)).0 ≡ []
    → (n.id ≢ "")
      × (n.type ≢ "")
      × (elem n.id seen ≡ false)
      × ((check_nodes (suc i) (n.id ∷ seen) ns).0 ≡ [])
unfolding check_nodes
check_nodes-empty i seen n ns h = elim (Bool-cases (n.id == "")) [
  | inl unnamed ↦ absurd (ground arith)
  | inr named ↦
      (ground (arith, eq_iff n.id ""), ground (arith, eq_iff n.type ""), ground arith, ground arith)
]

check_nodes-clean :
    (i : ℕ) (seen : List String) (n : RawNode) (ns : List RawNode)
    → IsNamed n
    → elem n.id seen ≡ false
    → (check_nodes (suc i) (n.id ∷ seen) ns).0 ≡ []
    → (check_nodes i seen (n ∷ ns)).0 ≡ []
unfolding check_nodes report
check_nodes-clean i seen n ns h k r = ground (arith, eq_iff n.id "", eq_iff n.type "", h.0, h.1)

check_nodes_sound :
    (i : ℕ) (seen : List String) (ns : List RawNode)
    → ((v : String) → count v seen ≤ 1)
    → (check_nodes i seen ns).0 ≡ []
    → All IsNamed ns × ((v : String) → count v seen + count v (ids_of ns) ≤ 1)
check_nodes_sound i seen [] d h = (tt, λ v. omega (arith, d v))
check_nodes_sound i seen (n ∷ ns) d h =
    let (named, typed, fresh, rest) = check_nodes-empty i seen n ns h in
    let (later, once) =
      check_nodes_sound (suc i) (n.id ∷ seen) ns
        (λ v. ground (arith, d v, count_of_not_elem n.id seen fresh, eq_iff n.id v)) rest in
    (((named, typed), later), λ v. ground (arith, once v))

check_nodes_complete :
    (i : ℕ) (seen : List String) (ns : List RawNode)
    → All IsNamed ns
    → ((v : String) → count v seen + count v (ids_of ns) ≤ 1)
    → (check_nodes i seen ns).0 ≡ []
check_nodes_complete i seen [] h once = unfold check_nodes in refl
check_nodes_complete i seen (n ∷ ns) h once =
    check_nodes-clean i seen n ns h.0 fresh
      (check_nodes_complete (suc i) (n.id ∷ seen) ns h.1 (λ v. ground (arith, once v)))
  where
    fresh : elem n.id seen ≡ false
    fresh = ground (arith, once n.id, eq_refl n.id, count_of_elem n.id seen)

names_not_empty : (ns : List RawNode) → All IsNamed ns → 0 < count "" (ids_of ns) → ⊥
names_not_empty ns h k = named_ne_empty ns "" h k refl

has_node : (ns : List RawNode) (v : String) → 0 < count v (ids_of ns) → is_empty ns ≡ false
has_node [] v h = absurd (omega arith)
has_node (n ∷ ns) v h = refl

has_connection : (cs : List RawConn) → cs ≢ [] → is_empty cs ≡ false
has_connection [] h = absurd (h refl)
has_connection (c ∷ cs) h = refl

accepted : (w : RawWorkflow) → validate_envelope w ≡ [] → IsEnvelope w
unfolding validate_envelope
accepted w h =
    let (no_id, r) = report-split (w.id == "") id_required _ h in
    let (no_version, r) = report-split (eqb_ℤ w.version (pos 0)) version_required _ r in
    let (other_version, r) =
      report-split (not (eqb_ℤ w.version (pos 1))) (version_unsupported w.version) _ r in
    let (no_trigger, r) = report-split (w.trigger == "") trigger_required _ r in
    let (no_nodes, r) = report-split (is_empty w.nodes) nodes_required _ r in
    let (no_connections, r) = report-split (is_empty w.connections) connections_required _ r in
    let (bad_nodes, r) = append-eq-nil (check_nodes 0 [] w.nodes).0 _ r in
    let (unknown, bad_connections) =
      report-split (not (elem w.trigger (check_nodes 0 [] w.nodes).1)) (trigger_unknown w.trigger) _
        r in
    let (named, once) = check_nodes_sound 0 [] w.nodes (λ v. omega arith) bad_nodes in
    let same = λ (v : String). check_nodes-seen 0 [] w.nodes v named in
    record {
      has_id = ground (arith, no_id, eq_iff w.id "");
      version_one = eqb_ℤ→eq w.version (pos 1) (ground (arith, other_version));
      named = named;
      distinct = λ v. omega (arith, once v);
      trigger_known =
          ground
            (arith, unknown, same w.trigger, count_of_elem w.trigger (check_nodes 0 [] w.nodes).1);
      connected = λ e. ground (arith, no_connections, e);
      wired =
          (connections_iff 0 (ids_of w.nodes) (check_nodes 0 [] w.nodes).1 w.connections
              (λ v. omega (arith, same v)) (names_not_empty w.nodes named)).0
            bad_connections;
    }

rejected_not : (w : RawWorkflow) → IsEnvelope w → validate_envelope w ≡ []
unfolding validate_envelope
rejected_not w v =
    let same = λ (x : String). check_nodes-seen 0 [] w.nodes x v.named in
    let id : (w.id == "") ≡ false = ground (arith, eq_iff w.id "", v.has_id) in
    let zero_version : eqb_ℤ w.version (pos 0) ≡ false =
      subst (λ x. eqb_ℤ x (pos 0) ≡ false) (sym v.version_one) refl in
    let version : eqb_ℤ w.version (pos 1) ≡ true =
      subst (λ x. eqb_ℤ x (pos 1) ≡ true) (sym v.version_one) refl in
    let trigger : (w.trigger == "") ≡ false =
      not_empty (ids_of w.nodes) w.trigger (names_not_empty w.nodes v.named) v.trigger_known in
    let known : elem w.trigger (check_nodes 0 [] w.nodes).1 ≡ true =
      elem_of_count w.trigger (check_nodes 0 [] w.nodes).1
        (omega (arith, same w.trigger, v.trigger_known)) in
    rw (
      id,
      zero_version,
      version,
      trigger,
      has_node w.nodes w.trigger v.trigger_known,
      has_connection w.connections v.connected,
      check_nodes_complete 0 [] w.nodes v.named (λ x. omega (arith, v.distinct x)),
      known,
      (connections_iff 0 (ids_of w.nodes) (check_nodes 0 [] w.nodes).1 w.connections
            (λ x. omega (arith, same x)) (names_not_empty w.nodes v.named)).1
          v.wired,
    )

-- An envelope is accepted exactly if it has an id and version 1, its nodes have distinct ids and
-- types, its trigger is one of them, and it has connections, each from a named port of one node
-- to a named port of another.
pub validate_envelope_iff : (w : RawWorkflow) → (validate_envelope w ≡ []) ↔ IsEnvelope w
validate_envelope_iff w = (accepted w, rejected_not w)
