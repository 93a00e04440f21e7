-- ===== src/Loader/RetryBlocks.antt =====
-- parseRetryByNode of loader.go: the retry blocks of the nodes. `parse` is ParsePolicy, and the
-- map of policies is a list whose first entry for an id is the one that counts.
pub mod Laws
pub mod Examples
use ai_agent_go_service.Prelude.{
  String, ◌==◌, Bool, ◌||◌, List, [], ◌∷◌, Option, some, none, Result, ok, err, ◌>>=◌,
  if◌then◌else◌,
}
use ai_agent_go_service.Loader.Types.{lookup}
use ai_agent_go_service.Loader.Nodes.{Node}

-- A raw node's id and its retry block, which is empty if the node has none.
pub record RetryBlock : Type 0 where
  pub id : String
  pub retry : String

pub data RetryError (E : Type 0) : Type 0 where
  missing_instance : String → RetryError E
  role_not_supported : String → String → RetryError E
  bad_policy : String → E → RetryError E

pub is_retry_role : String → Bool
is_retry_role role = role == "tool" || role == "agent" || role == "llm"

module _ {E P : Type 0} (parse : String → Result E (Option P)) where
  with_policy :
      String → Result E (Option P) → List (String × P) → Result (RetryError E) (List (String × P))
  with_policy id (err e) out = err (bad_policy id e)
  with_policy id (ok none) out = ok out
  with_policy id (ok (some p)) out = ok ((id, p) ∷ out)

  with_instance :
      RetryBlock → Option Node → List (String × P) → Result (RetryError E) (List (String × P))
  unfolding with_policy is_retry_role
  with_instance n none out = err (missing_instance n.id)
  with_instance n (some instance') out =
      if is_retry_role instance'.spec.role
      then with_policy n.id (parse n.retry) out
      else err (role_not_supported n.id instance'.spec.role)

  add_block :
      List (String × Node)
      → RetryBlock
      → List (String × P)
      → Result (RetryError E) (List (String × P))
  unfolding with_instance
  add_block instances n out =
      if n.retry == "" then ok out else with_instance n (lookup n.id instances) out

  add_blocks :
      List (String × Node)
      → List RetryBlock
      → List (String × P)
      → Result (RetryError E) (List (String × P))
  unfolding add_block
  add_blocks instances [] out = ok out
  add_blocks instances (n ∷ ns) out =
      add_block instances n out >>= (λ out'. add_blocks instances ns out')

  unfoldable pub parse_retry_by_node :
      List RetryBlock → List (String × Node) → Result (RetryError E) (List (String × P))
  unfolding add_blocks
  parse_retry_by_node blocks instances = add_blocks instances blocks []
