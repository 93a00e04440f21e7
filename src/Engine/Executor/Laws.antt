-- ===== src/Engine/Executor/Laws.antt =====
-- How a run ends, and what becomes of its attachments.
use ai_agent_go_service.Prelude.{
  String, ◌≡◌, refl, sym, subst, Bool, true, false, List, [], ◌∷◌, Option, some, none, Result, ok,
  err, if◌then◌else◌, Bool-cases, ◌⊎◌, inl, inr,
}
use ai_agent_go_service.Engine.Executor.{
  Attachment, TriggerEvent, AgentInput, processed, closed_stream, replied, Trace, Workflow,
  ExecutorError, error_text, agent_failed, uploaded, tell, stored, is_empty, resolve_agent,
  persist_attachments, report_failure, after_process, persisted, with_agent, index_mapping_for,
  resolve_mapping_provider, run,
}

-- How a run left the trace: a success ends with the agent's turn; a failure is the last thing that
-- the stream was told, or the reply where there is no stream.
pub data Ended (evt : TriggerEvent) : Option ExecutorError → Trace → Type 0 where
  answered :
      {agent : String} {input : AgentInput} {t : Trace} → Ended evt none (processed agent input ∷ t)
  streamed :
      {e : ExecutorError} {t : Trace}
      → evt.has_stream_sink ≡ true
      → Ended evt (some e) (closed_stream "executor-failed" (error_text e) ∷ t)
  told :
      {e : ExecutorError} {t : Trace}
      → evt.has_stream_sink ≡ false
      → evt.has_reply ≡ true
      → Ended evt (some e) (replied "executor-failed" (error_text e) ∷ t)
  unheard :
      {e : ExecutorError} {t : Trace}
      → evt.has_stream_sink ≡ false
      → evt.has_reply ≡ false
      → Ended evt (some e) t

-- An attachment is passed on with at most its URL replaced, and only if it brought bytes.
pub Kept : Attachment → Attachment → Type 0
Kept a b =
    (b.media_type ≡ a.media_type)
    × (b.filename ≡ a.filename)
    × (b.size ≡ a.size)
    × (b.bytes ≡ a.bytes)
    × ((is_empty a.bytes ≡ true × (b.url ≡ a.url)) ⊎ (is_empty a.bytes ≡ false))

pub AllKept : List Attachment → List Attachment → Type 0
AllKept [] [] = Unit
AllKept (a ∷ as') (b ∷ bs) = Kept a b × AllKept as' bs
AllKept _ _ = ⊥

stored-Kept :
    (a : Attachment) (r : Result String String) → is_empty a.bytes ≡ false → Kept a (stored a r)
unfolding stored Kept
stored-Kept a (ok url) h = (refl, refl, refl, refl, inr h)
stored-Kept a (err e) h = (refl, refl, refl, refl, inr h)

tell-Ended :
    (sink reply : Bool) (evt : TriggerEvent) (e : ExecutorError) (t : Trace)
    → evt.has_stream_sink ≡ sink
    → evt.has_reply ≡ reply
    → Ended evt (some e) (tell sink reply e t)
unfolding tell
tell-Ended true reply evt e t s r = streamed s
tell-Ended false true evt e t s r = told s r
tell-Ended false false evt e t s r = unheard s r

first_Kept :
    (a : Attachment) (r : Result String String)
    → Kept a (if is_empty a.bytes then a else stored a r)
unfolding Kept
first_Kept a r = elim (Bool-cases (is_empty a.bytes)) [
  | inl c ↦
      subst (λ b. Kept a (if b then a else stored a r)) (sym c)
        (refl, refl, refl, refl, inl (c, refl))
  | inr c ↦ subst (λ b. Kept a (if b then a else stored a r)) (sym c) (stored-Kept a r c)
]

module _ (wf : Workflow) where
  report_failure-Ended :
      (evt : TriggerEvent) (e : ExecutorError) (t : Trace)
      → Ended evt (some e) (report_failure wf evt e t).1
  unfolding report_failure
  report_failure-Ended evt e t = tell-Ended evt.has_stream_sink evt.has_reply evt e t refl refl

  after_process-Ended :
      (evt : TriggerEvent) (o : Option String) (agent : String) (input : AgentInput) (t : Trace)
      → let r = after_process wf evt o (processed agent input ∷ t) in Ended evt r.0 r.1
  unfolding after_process report_failure
  after_process-Ended evt none agent input t = answered
  after_process-Ended evt (some e) agent input t =
      report_failure-Ended evt (agent_failed e) (processed agent input ∷ t)

  with_agent-Ended :
      (evt : TriggerEvent) (m : Option String) (r : Result ExecutorError String) (t : Trace)
      → let o = with_agent wf evt m r t in Ended evt o.0 o.1
  unfolding with_agent report_failure
  with_agent-Ended evt m (err e) t = report_failure-Ended evt e t
  with_agent-Ended evt m (ok agent) t =
      let (msg, atts) = Workflow.parse_chat_body wf evt.body in
      let (atts', t') = persisted wf evt.session_id atts t in
      let input : AgentInput = record {
        message = msg;
        session = evt.session_id;
        user = evt.user_id;
        request = evt.request_id;
        index_mapping = m;
        attachments = atts';
      } in
      after_process-Ended evt (Workflow.process wf agent input t') agent input t'

  -- Every run that fails says so as its last action: it closes the stream with the error that it
  -- returns, or replies with it where there is no stream, and is silent only if there is neither;
  -- a run that returns no error ends with the turn of the agent.
  pub run-Ended : (evt : TriggerEvent) (t : Trace) → let r = run wf evt t in Ended evt r.0 r.1
  unfolding run
  run-Ended evt t =
      let (m, t') = index_mapping_for wf (resolve_mapping_provider wf) t in
      with_agent-Ended evt m (resolve_agent wf) t'

  -- Persisting keeps the attachments in order, and of each all but the URL, which changes only for
  -- one that brought bytes.
  pub persist_attachments-AllKept :
      (session : String) (as' : List Attachment) (t : Trace)
      → AllKept as' (persist_attachments wf session as' t).0
  unfolding persist_attachments AllKept
  persist_attachments-AllKept session [] t = tt
  persist_attachments-AllKept session (a ∷ as') t = (
    first_Kept a (Workflow.upload wf a t),
    persist_attachments-AllKept session as'
        (if is_empty a.bytes then t else uploaded session a ∷ t),
  )
