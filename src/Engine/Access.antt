-- ===== src/Engine/Access.antt =====
-- indexaccess.go: which identity function guards the index of a workflow. The nodes and their
-- policies are values of other packages: a record of the caller says which nodes are scoped to an
-- index, which peers are wired to a policy port, and what a policy answers within the timeout.
pub mod Laws
pub mod Examples
use ai_agent_go_service.Prelude.{
  ℕ, String, ◌==◌, Bool, not, ◌&&◌, List, [], ◌∷◌, ◌++◌, Option, some, none, Result, ok, err,
  length, if◌then◌else◌,
}
use Prim.Native.String.{◌++◌ as concat}

pub data Cause : Type 0 where
  peer_count : String → ℕ → Cause
  lookup_failed : String → Cause
  empty_function different_functions : Cause

pub data IndexStatus : Type 0 where
  no_access bound unbound : IndexStatus

pub record IndexAccess : Type 0 where
  pub status : IndexStatus
  pub index : String
  pub function_id : String
  pub cause : Option Cause

abbrev pub IndexFunctionProvider : Type 0
IndexFunctionProvider = String → Result String String

-- `scoped` is the pattern of an IndexScoped node, `policy_peers` are the sources wired to the
-- policy port of a node, and `trim` is strings.TrimSpace.
pub record Wiring : Type 0 where
  pub scoped : String → Option String
  pub policy_peers : String → List String
  pub provider_of : String → Option IndexFunctionProvider
  pub trim : String → String

-- strings.Join of the patterns with a comma.
join : List String → String
join [] = ""
join (p ∷ []) = p
join (p ∷ ps) = concat p (concat "," (join ps))

abbrev pub refused : String → Cause → IndexAccess
refused index c = record { status = unbound; index = index; function_id = ""; cause = some c }

module _ (wiring : Wiring) where
  open wiring use {scoped, policy_peers, provider_of, trim}

  pub policy_provider : String → Result Cause (Option IndexFunctionProvider)
  policy_provider id = elim (policy_peers id) [
    | src ∷ [] ↦ ok (provider_of src)
    | refs ↦ err (peer_count id (length refs))
  ]

  pub lookup_function : IndexFunctionProvider → String → Result Cause String
  lookup_function p pattern = elim (p pattern) [
    | err e ↦ err (lookup_failed e)
    | ok fn ↦ if trim fn == "" then err empty_function else ok (trim fn)
  ]

  finished : List String → String → IndexAccess
  finished [] fn = record { status = no_access; index = ""; function_id = ""; cause = none }
  finished ps fn = record { status = bound; index = join ps; function_id = fn; cause = none }

  -- The loop over the sorted ids, with the patterns and the function found so far.
  resolve_from : List String → List String → String → IndexAccess
  unfolding policy_provider lookup_function finished
  resolve_from [] patterns fn = finished patterns fn
  resolve_from (id ∷ ids) patterns fn = elim (scoped id) [
    | none ↦ resolve_from ids patterns fn
    | some pattern ↦ elim (policy_provider id) [
      | err c ↦ refused pattern c
      | ok none ↦ resolve_from ids patterns fn
      | ok (some p) ↦ elim (lookup_function p pattern) [
        | err c ↦ refused (join (patterns ++ pattern ∷ [])) c
        | ok found ↦
            (let rest = resolve_from ids (patterns ++ pattern ∷ []) found in
              if not (fn == "") && not (found == fn)
              then refused (join (patterns ++ pattern ∷ [])) different_functions
              else rest)
      ]
    ]
  ]

  pub resolve_index_access : List String → IndexAccess
  unfolding resolve_from
  resolve_index_access ids = resolve_from ids [] ""
