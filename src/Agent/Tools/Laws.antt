-- ===== src/Agent/Tools/Laws.antt =====
-- What a tool turn preserves of the trace.
use ai_agent_go_service.Prelude.{
  ℕ, ◌≡◌, Bool, true, false, String, List, [], ◌∷◌, Option, ltb, Bool-cases, inl, inr, Option-cases,
}
use ai_agent_go_service.Prelude.Int.{ℤ}
use ai_agent_go_service.Retry.Loop.Keeps.{Kept, do_retry-keeps}
use ai_agent_go_service.Agent.Types.{ToolPayload, LlmToolUse, attachment, tool_output}
use ai_agent_go_service.Agent.Run.{Trace, invoked, awaited, Run, act, Tool, Settings, Outside}
use ai_agent_go_service.Agent.Reply.Laws.{SendsKeep, emit-keeps}
use ai_agent_go_service.Agent.Tools.{
  Counts, bump, lookup_tool, emit_attachments, Called, Step, halted, stepped, Results, halted_by,
  results, await_tool, invoke_op, tool_world, invoke_tool, call_tool, surface, failed_call,
  after_call, known_tool, step_call, after_step, run_calls,
}

abbrev pub step_run : {W : Type 0} → Step W → Run W
step_run (halted e r) = r
step_run (stepped counts block r) = r

abbrev pub results_run : {W : Type 0} → Results W → Run W
results_run (halted_by e r) = r
results_run (results counts blocks r) = r

-- Calling a tool for a call of the model preserves the predicate.
pub record CallsKeep (tc : LlmToolUse) (P : Trace → Type 0) : Type 0 where
  pub on_invoked : (t : Trace) → P t → P (invoked tc.name tc.id ∷ t)
  pub on_awaited : (t : Trace) → P t → P (awaited tc.name tc.id ∷ t)

module _ {W : Type 0} (outside : Outside W) (settings : Settings) (recalling : Bool)
    (P : Trace → Type 0) (sends : SendsKeep recalling P) where
  emit_attachments-keeps :
      (as' : List (String × String)) (r : Run W)
      → P r.trace
      → P (emit_attachments recalling as' r).trace
  unfolding emit_attachments
  emit_attachments-keeps [] r h = h
  emit_attachments-keeps ((kind, payload) ∷ as') r h =
      emit_attachments-keeps as' _ (emit-keeps recalling P sends (attachment kind payload) r h)

  module _ (tc : LlmToolUse) where
    surface-keeps :
        (counts : Counts) (p : ToolPayload) (b : Bool) (r : Run W)
        → P r.trace
        → P (step_run (surface outside settings recalling tc counts p b r)).trace
    unfolding surface
    surface-keeps counts p b r h = emit-keeps recalling P sends (tool_output tc.id p b) r h

    after_call-keeps :
        (counts : Counts) (tool : Tool) (called : Called) (r : Run W)
        → P r.trace
        → P (step_run (after_call outside settings recalling tc counts tool called r)).trace
    unfolding after_call failed_call
    after_call-keeps counts tool called r h = elim (Option-cases called.failure) [
      | inl n ↦ rw n (surface-keeps counts _ false r h)
      | inr (e, s) ↦ rw s (elim (Bool-cases tool.terminates) [
        | inl t ↦ rw t h
        | inr f ↦ rw f (surface-keeps (bump tc.name counts) _ true r h)
      ])
    ]

    invoke_op-keeps :
        (t : Option ℤ) (k : ℕ) (r : Run W)
        → CallsKeep tc P
        → P r.trace
        → P (invoke_op outside settings recalling tc t k r).2.trace
    unfolding invoke_op
    invoke_op-keeps t k r calls h =
        let (out, e, as', w) = outside.invoke t k tc.name tc.input r.world in
        emit_attachments-keeps as'
          (act (invoked tc.name tc.id) (record { world = w; trace = r.trace }))
          (calls.on_invoked r.trace h)

    tool_world-Kept :
        CallsKeep tc P → Kept (tool_world outside settings recalling tc) (λ r. P r.trace)
    unfolding tool_world
    tool_world-Kept calls = record {
      now_keeps = λ r h. h;
      op_keeps = λ t k r h. invoke_op-keeps t k r calls h;
      random_keeps = λ r h. h;
      wait_keeps = λ d r h. h;
    }

    call_tool-keeps :
        (tool : Tool) (r : Run W)
        → CallsKeep tc P
        → P r.trace
        → P (call_tool outside settings recalling tc tool r).1.trace
    unfolding call_tool await_tool invoke_tool
    call_tool-keeps tool r calls h = elim (Bool-cases tool.client_only) [
      | inl t ↦ rw t (calls.on_awaited r.trace h)
      | inr f ↦ rw f (
          do_retry-keeps (tool_world outside settings recalling tc) (λ r. P r.trace)
            (tool_world-Kept calls) tool.retry_policy r h)
    ]

    known_tool-keeps :
        (counts : Counts) (tool : Tool) (r : Run W)
        → (ltb settings.max_tool_retries (counts tc.name) ≡ false → CallsKeep tc P)
        → P r.trace
        → P (step_run (known_tool outside settings recalling tc counts tool r)).trace
    unfolding known_tool
    known_tool-keeps counts tool r calls h =
        elim (Bool-cases (ltb settings.max_tool_retries (counts tc.name))) [
          | inl t ↦ rw (step_run, t) (surface-keeps counts _ true r h)
          | inr f ↦
              rw (step_run, f)
                (after_call-keeps counts tool _ _ (call_tool-keeps tool r (calls f) h))
        ]

    -- A tool is called only under the cap.
    pub step_call-keeps :
        (counts : Counts) (r : Run W)
        → (ltb settings.max_tool_retries (counts tc.name) ≡ false → CallsKeep tc P)
        → P r.trace
        → P (step_run (step_call outside settings recalling tc counts r)).trace
    unfolding step_call
    step_call-keeps counts r calls h = elim (Option-cases (lookup_tool settings.tools tc.name)) [
      | inl n ↦ rw (step_run, n) h
      | inr (tool, s) ↦ rw (step_run, s) (known_tool-keeps counts tool r calls h)
    ]

  after_step-keeps :
      (s : Step W) (next : Counts → Run W → Results W)
      → ((counts : Counts) (r : Run W) → P r.trace → P (results_run (next counts r)).trace)
      → P (step_run s).trace
      → P (results_run (after_step outside settings recalling s next)).trace
  unfolding after_step
  after_step-keeps (halted e r) next go_on h = h
  after_step-keeps (stepped counts block r) next go_on h = joined (next counts r) (go_on counts r h)
    where
      joined :
          (rs : Results W)
          → P (results_run rs).trace
          → P
              (results_run (elim rs [
                | halted_by e r' ↦ halted_by e r'
                | results counts' blocks r' ↦ results counts' (block ∷ blocks) r'
              ])).trace
      joined (halted_by e r') k = k
      joined (results counts' blocks r') k = k

  pub run_calls-keeps :
      (tcs : List LlmToolUse) (counts : Counts) (r : Run W)
      → ((tc : LlmToolUse) → CallsKeep tc P)
      → P r.trace
      → P (results_run (run_calls outside settings recalling tcs counts r)).trace
  unfolding run_calls
  run_calls-keeps [] counts r calls h = h
  run_calls-keeps (tc ∷ tcs) counts r calls h =
      after_step-keeps (step_call outside settings recalling tc counts r)
        (λ counts' r'. run_calls outside settings recalling tcs counts' r')
        (λ counts' r' h'. run_calls-keeps tcs counts' r' calls h')
        (step_call-keeps tc counts r (λ _. calls tc) h)
