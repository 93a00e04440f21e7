-- ===== src/Loader/Envelope.antt =====
-- types.go and schema.go of pkg/workflow/engine/loader: the envelope of a workflow file, and the
-- checks on its shape. The names and descriptions are left out.
pub mod Laws
pub mod Examples
use ai_agent_go_service.Prelude.{
  ℕ, suc, String, ◌==◌, Bool, not, ◌&&◌, ◌||◌, List, [], ◌∷◌, ◌++◌, elem, if◌then◌else◌,
}
use ai_agent_go_service.Prelude.Int.{ℤ, pos, negsuc, eqb_ℤ}
use ai_agent_go_service.Loader.Types.{RawConn}

-- The configuration and the retry block are raw JSON, empty if they are absent.
pub record RawNode : Type 0 where
  pub id : String
  pub type : String
  pub config : String
  pub retry : String

pub record RawWorkflow : Type 0 where
  pub id : String
  pub version : ℤ
  pub trigger : String
  pub nodes : List RawNode
  pub connections : List RawConn

pub data EnvelopeError : Type 0 where
  id_required version_required trigger_required nodes_required connections_required : EnvelopeError
  version_unsupported : ℤ → EnvelopeError
  node_id_required node_type_required from_required to_required : ℕ → EnvelopeError
  duplicate_id from_unknown to_unknown : ℕ → String → EnvelopeError
  trigger_unknown : String → EnvelopeError

-- `if bad { errs = append(errs, e) }`
report : Bool → EnvelopeError → List EnvelopeError
report bad e = if bad then e ∷ [] else []

abbrev is_empty {ℓ} : {A : Type ℓ} → List A → Bool
is_empty [] = Bool.true
is_empty (x ∷ xs) = Bool.false

-- The loop over the nodes, which also collects the ids that it has seen.
unfoldable pub check_nodes : ℕ → List String → List RawNode → List EnvelopeError × List String
unfolding report
check_nodes i seen [] = ([], seen)
check_nodes i seen (n ∷ ns) =
    let (errs, seen') = check_nodes (suc i) (if n.id == "" then seen else n.id ∷ seen) ns in
    (
      (if n.id == ""
            then node_id_required i ∷ []
            else report (elem n.id seen) (duplicate_id i n.id)
              ++ report (n.type == "") (node_type_required i))
          ++ errs,
      seen',
    )

check_connection : ℕ → List String → RawConn → List EnvelopeError
unfolding report
check_connection i seen c =
    report (c.from.node == "" || c.from.port == "") (from_required i)
    ++ (report (c.to.node == "" || c.to.port == "") (to_required i)
        ++ (report (not (c.from.node == "") && not (elem c.from.node seen))
              (from_unknown i c.from.node)
            ++ report (not (c.to.node == "") && not (elem c.to.node seen))
                (to_unknown i c.to.node)))

check_connections : ℕ → List String → List RawConn → List EnvelopeError
unfolding check_connection
check_connections i seen [] = []
check_connections i seen (c ∷ cs) = check_connection i seen c ++ check_connections (suc i) seen cs

unfoldable pub validate_envelope : RawWorkflow → List EnvelopeError
unfolding check_connections report
validate_envelope w =
    let (errs, seen) = check_nodes 0 [] w.nodes in
    report (w.id == "") id_required
    ++ (report (eqb_ℤ w.version (pos 0)) version_required
        ++ (report (not (eqb_ℤ w.version (pos 1))) (version_unsupported w.version)
            ++ (report (w.trigger == "") trigger_required
                ++ (report (is_empty w.nodes) nodes_required
                    ++ (report (is_empty w.connections) connections_required
                        ++ (errs
                            ++ (report (not (elem w.trigger seen)) (trigger_unknown w.trigger)
                                ++ check_connections 0 seen w.connections)))))))
