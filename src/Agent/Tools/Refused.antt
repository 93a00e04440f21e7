-- ===== src/Agent/Tools/Refused.antt =====
-- A tool that has failed too often is not called again in the turn.
use ai_agent_go_service.Prelude.{
  ℕ, suc, ◌≤◌, ◌<◌, ◌≡◌, refl, ◌∙◌, subst, inl, inr, Bool, false, String, ◌==◌, eq_iff, List, [],
  ◌∷◌, ltb, arith, Bool-cases, Option-cases, if◌then◌else◌,
}
use ai_agent_go_service.Agent.Types.{LlmToolUse}
use ai_agent_go_service.Agent.Run.{invoked, awaited, Trace, Run, Tool, Settings, Outside}
use ai_agent_go_service.Agent.Tools.{
  Counts, bump, lookup_tool, Called, Step, halted, stepped, Results, halted_by, results, surface,
  failed_call, after_call, known_tool, step_call, after_step, run_calls,
}
use ai_agent_go_service.Agent.Tools.Laws.{step_run, results_run, CallsKeep, step_call-keeps}

-- How often a tool was called: by the client's hand, or with each attempt of the retry helper.
abbrev pub calls_to : String → Trace → ℕ
calls_to name [] = 0
calls_to name (invoked n id ∷ t) = if n == name then suc (calls_to name t) else calls_to name t
calls_to name (awaited n id ∷ t) = if n == name then suc (calls_to name t) else calls_to name t
calls_to name (a ∷ t) = calls_to name t

bump-le : (name other : String) (counts : Counts) → counts other ≤ bump name counts other
unfolding bump
bump-le name other counts = ground arith

module _ {W : Type 0} (outside : Outside W) (settings : Settings) (recalling : Bool)
    (name : String) where
  -- The counts of one step do not fall.
  Rises : Counts → Step W → Type 0
  Rises counts (halted e r) = Unit
  Rises counts (stepped counts' block r) = counts name ≤ counts' name

  after_call-Rises :
      (tc : LlmToolUse) (counts : Counts) (tool : Tool) (called : Called) (r : Run W)
      → Rises counts (after_call outside settings recalling tc counts tool called r)
  unfolding after_call failed_call surface Rises
  after_call-Rises tc counts tool called r = elim (Option-cases called.failure) [
    | inl n ↦ rw n (omega arith)
    | inr (e, s) ↦ rw s (elim (Bool-cases tool.terminates) [
      | inl t ↦ rw t tt
      | inr f ↦ rw f (bump-le tc.name name counts)
    ])
  ]

  step_call-Rises :
      (tc : LlmToolUse) (counts : Counts) (r : Run W)
      → Rises counts (step_call outside settings recalling tc counts r)
  unfolding step_call known_tool Rises surface
  step_call-Rises tc counts r = elim (Option-cases (lookup_tool settings.tools tc.name)) [
    | inl n ↦ rw (Rises, n) (omega arith)
    | inr (tool, s) ↦
        rw (Rises, s)
          (elim (Bool-cases (ltb settings.max_tool_retries (counts tc.name))) [
            | inl t ↦ rw (Rises, t) (omega arith)
            | inr f ↦ rw (Rises, f) (after_call-Rises tc counts tool _ _)
          ])
  ]

  -- A step calls another tool, or one that is under the cap.
  refused_here :
      (tc : LlmToolUse) (counts : Counts) (n : ℕ)
      → settings.max_tool_retries < counts name
      → ltb settings.max_tool_retries (counts tc.name) ≡ false
      → CallsKeep tc (λ t. calls_to name t ≡ n)
  refused_here tc counts n over under = elim (Bool-cases (tc.name == name)) [
    | inl t ↦ absurd (
        contradiction (
          subst (λ s. ltb settings.max_tool_retries (counts s) ≡ false) ((eq_iff tc.name name).0 t)
            under))
    | inr f ↦ record { on_invoked = λ t h. rw f h; on_awaited = λ t h. rw f h }
  ]
    where
      contradiction : ltb settings.max_tool_retries (counts name) ≡ false → ⊥
      contradiction e = absurd (ground (arith, e, over))

  step_call-Refused :
      (tc : LlmToolUse) (counts : Counts) (r : Run W)
      → settings.max_tool_retries < counts name
      → calls_to name (step_run (step_call outside settings recalling tc counts r)).trace
        ≡ calls_to name r.trace
  step_call-Refused tc counts r over =
      step_call-keeps outside settings recalling (λ t. calls_to name t ≡ calls_to name r.trace)
        (λ e ev t h. h) tc counts r (refused_here tc counts _ over) refl

  after_step-Refused :
      (counts : Counts) (n : ℕ) (s : Step W) (next : Counts → Run W → Results W)
      → Rises counts s
      → settings.max_tool_retries < counts name
      → ((counts' : Counts) (r : Run W)
          → settings.max_tool_retries < counts' name
          → calls_to name r.trace ≡ n
          → calls_to name (results_run (next counts' r)).trace ≡ n)
      → calls_to name (step_run s).trace ≡ n
      → calls_to name (results_run (after_step outside settings recalling s next)).trace ≡ n
  unfolding after_step Rises
  after_step-Refused counts n (halted e r) next rises over go_on h = h
  after_step-Refused counts n (stepped counts' block r) next rises over go_on h =
      joined (next counts' r) (go_on counts' r (omega (arith, rises, over)) h)
    where
      joined :
          (rs : Results W)
          → calls_to name (results_run rs).trace ≡ n
          → calls_to name
              (results_run (elim rs [
                | halted_by e r' ↦ halted_by e r'
                | results counts'' blocks r' ↦ results counts'' (block ∷ blocks) r'
              ])).trace
            ≡ n
      joined (halted_by e r') k = k
      joined (results counts'' blocks r') k = k

  refused_from :
      (tcs : List LlmToolUse) (counts : Counts) (r : Run W) (n : ℕ)
      → settings.max_tool_retries < counts name
      → calls_to name r.trace ≡ n
      → calls_to name (results_run (run_calls outside settings recalling tcs counts r)).trace ≡ n
  unfolding run_calls
  refused_from [] counts r n over h = h
  refused_from (tc ∷ tcs) counts r n over h =
      after_step-Refused counts n (step_call outside settings recalling tc counts r)
        (λ counts' r'. run_calls outside settings recalling tcs counts' r')
        (step_call-Rises tc counts r) over
        (λ counts' r' over' h'. refused_from tcs counts' r' n over' h')
        (step_call-Refused tc counts r over ∙ h)

-- A tool that has failed more often than the cap is not called any more: a whole tool turn, whatever
-- its calls, leaves the number of calls to that tool as it was.
pub run_calls-refused :
    {W : Type 0} (outside : Outside W) (settings : Settings) (recalling : Bool) (name : String)
    (tcs : List LlmToolUse) (counts : Counts) (r : Run W)
    → settings.max_tool_retries < counts name
    → calls_to name (results_run (run_calls outside settings recalling tcs counts r)).trace
      ≡ calls_to name r.trace
run_calls-refused outside settings recalling name tcs counts r over =
    refused_from outside settings recalling name tcs counts r _ over refl
