-- ===== src/Engine/Executor.antt =====
-- executor.go: one trigger event through a workflow. What the executor does outside itself is kept
-- as a trace of actions, the last one first; the answers of the nodes, the uploader and the clock
-- depend on the trace so far. The timing of the run, the log lines, and what is only copied into
-- the agent's input (headers, names, time zone, clock) are left out.
pub mod Laws
pub mod Examples
use ai_agent_go_service.Prelude.{
  ℕ, String, ◌==◌, Bool, true, false, List, [], ◌∷◌, Option, some, none, Result, ok, err,
  if◌then◌else◌,
}

pub record Attachment : Type 0 where
  pub url : String
  pub media_type : String
  pub filename : String
  pub size : ℕ
  pub bytes : List ℕ

pub record TriggerEvent : Type 0 where
  pub session_id : String
  pub user_id : String
  pub request_id : String
  pub body : String
  pub has_stream_sink : Bool
  pub has_reply : Bool

pub record AgentInput : Type 0 where
  pub message : String
  pub session : String
  pub user : String
  pub request : String
  pub index_mapping : Option String
  pub attachments : List Attachment

pub data Action : Type 0 where
  asked_mapping : String → Action
  uploaded : String → Attachment → Action
  processed : String → AgentInput → Action
  closed_stream replied : String → String → Action

abbrev pub Trace : Type 0
Trace = List Action

-- Which nodes are agents and which know the mapping of their index, and what the calls answer.
pub record Workflow : Type 0 where
  pub topo_order : List String
  pub is_agent : String → Bool
  pub is_mapping_provider : String → Bool
  pub mapping_of : String → Trace → Result String String
  pub has_uploader : Bool
  pub upload : Attachment → Trace → Result String String
  pub process : String → AgentInput → Trace → Option String
  pub parse_chat_body : String → String × List Attachment

pub data ExecutorError : Type 0 where
  no_agent : ExecutorError
  agent_failed : String → ExecutorError

pub error_text : ExecutorError → String
error_text no_agent = "no agent node found"
error_text (agent_failed e) = e

-- The stream is closed with the error, or, where there is none, a reply says it.
tell : Bool → Bool → ExecutorError → Trace → Trace
unfolding error_text
tell true has_reply cause t = closed_stream "executor-failed" (error_text cause) ∷ t
tell false true cause t = replied "executor-failed" (error_text cause) ∷ t
tell false false cause t = t

-- The first id that passes a test.
first_node : (String → Bool) → List String → Option String
first_node f [] = none
first_node f (id ∷ ids) = let rest = first_node f ids in if f id then some id else rest

abbrev is_empty : List ℕ → Bool
is_empty [] = true
is_empty (b ∷ bs) = false

stored : Attachment → Result String String → Attachment
stored a (ok url) = record a { url = url }
stored a (err e) = a

module _ (wf : Workflow) where
  open wf use {
    topo_order, is_agent, is_mapping_provider, mapping_of, has_uploader, upload, process,
    parse_chat_body,
  }

  pub resolve_agent : Result ExecutorError String
  unfolding first_node
  resolve_agent = elim (first_node is_agent topo_order) [ some id ↦ ok id | none ↦ err no_agent ]

  pub resolve_mapping_provider : Option String
  unfolding first_node
  resolve_mapping_provider = first_node is_mapping_provider topo_order

  mapping_answer : Result String String → Option String
  mapping_answer (ok m) = some m
  mapping_answer (err e) = none

  -- A mapping that is unavailable is left out.
  index_mapping_for : Option String → Trace → Option String × Trace
  unfolding mapping_answer
  index_mapping_for none t = (none, t)
  index_mapping_for (some id) t = (mapping_answer (mapping_of id t), asked_mapping id ∷ t)

  -- A failed upload keeps the attachment as it came.
  pub persist_attachments : String → List Attachment → Trace → List Attachment × Trace
  unfolding stored
  persist_attachments session [] t = ([], t)
  persist_attachments session (a ∷ as') t =
      let tried = is_empty a.bytes in
      let b = if tried then a else stored a (upload a t) in
      let (bs, t') =
        persist_attachments session as' (if tried then t else uploaded session a ∷ t) in
      (b ∷ bs, t')

  pub report_failure : TriggerEvent → ExecutorError → Trace → Option ExecutorError × Trace
  unfolding tell
  report_failure evt cause t = (some cause, tell evt.has_stream_sink evt.has_reply cause t)

  after_process : TriggerEvent → Option String → Trace → Option ExecutorError × Trace
  unfolding report_failure
  after_process evt none t = (none, t)
  after_process evt (some e) t = report_failure evt (agent_failed e) t

  persisted : String → List Attachment → Trace → List Attachment × Trace
  unfolding persist_attachments
  persisted session atts t =
      let done = persist_attachments session atts t in if has_uploader then done else (atts, t)

  with_agent :
      TriggerEvent
      → Option String
      → Result ExecutorError String
      → Trace
      → Option ExecutorError × Trace
  unfolding report_failure persisted after_process
  with_agent evt mapping (err e) t = report_failure evt e t
  with_agent evt mapping (ok agent) t =
      let (msg, atts) = parse_chat_body evt.body in
      let (atts', t') = persisted evt.session_id atts t in
      let input : AgentInput = record {
        message = msg;
        session = evt.session_id;
        user = evt.user_id;
        request = evt.request_id;
        index_mapping = mapping;
        attachments = atts';
      } in
      after_process evt (process agent input t') (processed agent input ∷ t')

  pub run : TriggerEvent → Trace → Option ExecutorError × Trace
  unfolding index_mapping_for resolve_mapping_provider with_agent resolve_agent
  run evt t =
      let (mapping, t') = index_mapping_for resolve_mapping_provider t in
      with_agent evt mapping resolve_agent t'
