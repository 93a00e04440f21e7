-- ===== src/Assistant/Publish.antt =====
-- eligible.go, access.go, BuildCardSpec of manifest.go and Start of runtime.go: which workflows are
-- published as agents, and under which names. A workflow that is skipped leaves its reason.
pub mod Laws
pub mod Examples
use ai_agent_go_service.Prelude.{
  String, ◌==◌, Bool, true, false, not, ◌&&◌, ◌||◌, elem, List, [], ◌∷◌, Option, some, none,
  if◌then◌else◌, Result, ok, err, ◌>>=◌,
}
use Prim.Native.String.{◌++◌ as concat}
use ai_agent_go_service.Prelude.{map}
use ai_agent_go_service.Engine.Access.{Cause, IndexStatus, IndexAccess, no_access, bound, unbound}

pub record ChatEndpoint : Type 0 where
  pub response_mode : String
  pub allows_response_mode_override : Bool
  pub chat_subject : String

pub data Trigger : Type 0 where
  no_trigger other_trigger : Trigger
  nats_chat : ChatEndpoint → Trigger

pub record WorkflowNode : Type 0 where
  pub node_id : String
  pub client_only : Bool

-- The zero value of `enabled` is none; tags and skills only pass through, and are left out.
pub record Manifest : Type 0 where
  pub enabled : Option Bool
  pub name : String
  pub display_name : String
  pub description : String
  pub version : String

-- `manifest` is the raw block, and `nodes` is sorted by id.
pub record Workflow : Type 0 where
  pub id : String
  pub description : String
  pub manifest : String
  pub trigger : Trigger
  pub nodes : List WorkflowNode
  pub index_access : IndexAccess

pub record CardSpec : Type 0 where
  pub name : String
  pub display_name : String
  pub description : String
  pub version : String

pub record Config : Type 0 where
  pub app_id : String
  pub function_id : String
  pub default_version : String

pub record AgentAccess : Type 0 where
  pub app : String
  pub function : String

pub data Skip : Type 0 where
  without_trigger not_chat disabled_by_manifest no_subject no_function unknown_cause : Skip
  cannot_stream client_only_node bad_manifest bad_name reserved_name duplicate_name : String → Skip
  unbound_function : Cause → Skip
  new_failed start_failed : String → Skip

-- An agent that was started.
pub record Published : Type 0 where
  pub name : String
  pub workflow_id : String
  pub endpoint : ChatEndpoint
  pub access : AgentAccess

-- `agents` and `skipped` have the latest entry first; the keys of `seenNames` are the names of
-- `agents`.
pub record Runtime : Type 0 where
  pub agents : List Published
  pub skipped : List (String × Skip)

abbrev pub names : List Published → List String
names [] = []
names (p ∷ ps) = p.name ∷ names ps

-- The engine, the decoder of manifests, the expression for names, strings.TrimSpace, and the library
-- that announces an agent under a name.
pub record Services : Type 0 where
  pub workflow : String → Option Workflow
  pub unmarshal_manifest : String → Result String Manifest
  pub name_matches : String → Bool
  pub trim : String → String
  pub agent_new : String → Option String
  pub agent_start : String → Option String

first_client_only : List WorkflowNode → Option String
first_client_only [] = none
first_client_only (n ∷ ns) =
    let rest = first_client_only ns in if n.client_only then some n.node_id else rest

no_client_only : Option String → ChatEndpoint → Result Skip ChatEndpoint
no_client_only (some id) ep = err (client_only_node id)
no_client_only none ep = ok ep

endpoint_of : Trigger → List WorkflowNode → Result Skip ChatEndpoint
unfolding first_client_only no_client_only
endpoint_of no_trigger ns = err without_trigger
endpoint_of other_trigger ns = err not_chat
endpoint_of (nats_chat ep) ns =
    if not (ep.response_mode == "streaming") && not ep.allows_response_mode_override
    then err (cannot_stream ep.response_mode)
    else no_client_only (first_client_only ns) ep

unfoldable pub eligibility : Workflow → Result Skip ChatEndpoint
unfolding endpoint_of
eligibility wf = endpoint_of wf.trigger wf.nodes

or_default : String → String → String
or_default s default = if s == "" then default else s

unbound_reason : Option Cause → Skip
unbound_reason (some c) = unbound_function c
unbound_reason none = unknown_cause

module _ (services : Services) (cfg : Config) where
  open services use {workflow, unmarshal_manifest, name_matches, trim, agent_new, agent_start}

  access_of : IndexStatus → IndexAccess → Result Skip AgentAccess
  unfolding unbound_reason
  access_of no_access ia = ok (record { app = cfg.app_id; function = cfg.function_id })
  access_of bound ia =
      if trim ia.function_id == ""
      then err no_function
      else ok (record { app = cfg.app_id; function = ia.function_id })
  access_of unbound ia = err (unbound_reason ia.cause)

  unfoldable pub agent_access : IndexAccess → Result Skip AgentAccess
  unfolding access_of
  agent_access ia = access_of ia.status ia

  card_of : Workflow → Manifest → String → CardSpec
  unfolding or_default
  card_of wf man name = record {
    name = name;
    display_name = or_default (trim man.display_name) name;
    description =
        or_default (or_default (trim man.description) (trim wf.description))
          (concat "Workflow " wf.id);
    version = or_default (trim man.version) cfg.default_version;
  }

  checked_card : CardSpec → Result Skip CardSpec
  checked_card c =
      if not (name_matches c.name)
      then err (bad_name c.name)
      else if elem c.name ("discover" ∷ "announce" ∷ [])
      then err (reserved_name c.name)
      else ok c

  parse_manifest : String → Result String Manifest
  parse_manifest raw =
      if raw == ""
      then ok
          (record { enabled = none; name = ""; display_name = ""; description = ""; version = "" })
      else unmarshal_manifest raw

  card_from : Workflow → Result String Manifest → Result Skip CardSpec
  unfolding card_of checked_card or_default
  card_from wf (err e) = err (bad_manifest e)
  card_from wf (ok man) = elim man.enabled [
    | some false ↦ err disabled_by_manifest
    | some true ↦ checked_card (card_of wf man (or_default (trim man.name) wf.id))
    | none ↦ checked_card (card_of wf man (or_default (trim man.name) wf.id))
  ]

  unfoldable pub build_card_spec : Workflow → Result Skip CardSpec
  unfolding card_from parse_manifest
  build_card_spec wf = card_from wf (parse_manifest wf.manifest)

  fresh : List String → CardSpec → Result Skip CardSpec
  fresh seen c = if elem c.name seen then err (duplicate_name c.name) else ok c

  has_subject : ChatEndpoint → Result Skip ChatEndpoint
  has_subject ep = if ep.chat_subject == "" then err no_subject else ok ep

  done_unless : {A : Type 0} → (String → Skip) → Option String → A → Result Skip A
  done_unless wrong (some e) a = err (wrong e)
  done_unless wrong none a = ok a

  launched : Published → Result Skip Published
  unfolding done_unless
  launched p = done_unless new_failed (agent_new p.name) p >>= λ q.
      done_unless start_failed (agent_start q.name) q

  guarded : String → Workflow → ChatEndpoint → CardSpec → Result Skip Published
  unfolding has_subject launched agent_access
  guarded id wf ep spec = has_subject ep >>= λ ep'. agent_access wf.index_access >>= λ access.
      launched (record { name = spec.name; workflow_id = id; endpoint = ep'; access = access })

  -- The body of the loop, for one workflow.
  unfoldable pub publish : List String → String → Workflow → Result Skip Published
  unfolding eligibility build_card_spec fresh guarded
  publish seen id wf = eligibility wf >>= λ ep.
      build_card_spec wf >>= λ spec. fresh seen spec >>= λ spec'. guarded id wf ep spec'

  noted : String → Runtime → Result Skip Published → Runtime
  noted id rt (ok p) = record { agents = p ∷ rt.agents; skipped = rt.skipped }
  noted id rt (err why) = record { agents = rt.agents; skipped = (id, why) ∷ rt.skipped }

  publish_if : String → Option Workflow → Runtime → Runtime
  unfolding publish noted
  publish_if id none rt = rt
  publish_if id (some wf) rt = noted id rt (publish (names rt.agents) id wf)

  -- The loop over the sorted ids.
  unfoldable pub start : List String → Runtime → Runtime
  unfolding publish_if
  start [] rt = rt
  start (id ∷ ids) rt = start ids (publish_if id (workflow id) rt)
