-- ===== src/Agent/Tools.antt =====
-- The tool turn of loop.go: every call of the model's answer gets a result.
pub mod Laws
pub mod Answers
pub mod Examples
pub mod Refused
use ai_agent_go_service.Prelude.{
  ℕ, suc, String, ◌==◌, Bool, true, false, List, [], ◌∷◌, ◌++◌, Option, some, none, ltb, eqb,
  if◌then◌else◌, Result, ok, err,
}
use ai_agent_go_service.Prelude.Int.{ℤ, pos, ltb_ℤ, mul64}
use Prim.Native.String.{◌++◌ as concat}
use ai_agent_go_service.Retry.Types.{Failure, plain, wrapped, Outcome, Class, class_name}
use ai_agent_go_service.Retry.Classify.{allowed_indices}
use ai_agent_go_service.Retry.Loop.{World, do_retry}
use ai_agent_go_service.Agent.Types.{
  ToolPayload, output, no_output, unknown_tool, retry_cap_exceeded, policy_deny, failed,
  ContentBlock, tool_result, LlmToolUse, StreamEvent, tool_output, attachment,
}
use ai_agent_go_service.Agent.Messages.{is_blank_tool_payload}
use ai_agent_go_service.Agent.Run.{invoked, awaited, Run, act, Tool, Settings, Outside}
use ai_agent_go_service.Agent.Reply.{emit, on_world}

-- The map `toolErrorCounts`
abbrev pub Counts : Type 0
Counts = String → ℕ

unfoldable pub bump : String → Counts → Counts
bump name counts n = if name == n then suc (counts n) else counts n

unfoldable pub lookup_tool : List Tool → String → Option Tool
lookup_tool [] name = none
lookup_tool (t ∷ ts) name = if t.name == name then some t else lookup_tool ts name

-- The attachments that a tool emits while it runs.
emit_attachments : {W : Type 0} → Bool → List (String × String) → Run W → Run W
emit_attachments recalling [] r = r
emit_attachments recalling ((kind, payload) ∷ as') r =
    emit_attachments recalling as' (emit recalling (attachment kind payload) r)

-- What one call comes to: its output, its error, the attempts and the class of the last failure.
pub record Called : Type 0 where
  pub out : String
  pub failure : Option Failure
  pub attempts : ℕ
  pub last_class : Option Class

-- A turn that ends on a failure, or the counts and the block of one call.
pub data Step (W : Type 0) : Type 0 where
  halted : Failure → Run W → Step W
  stepped : Counts → ContentBlock → Run W → Step W

pub data Results (W : Type 0) : Type 0 where
  halted_by : Failure → Run W → Results W
  results : Counts → List ContentBlock → Run W → Results W

module _ {W : Type 0} (outside : Outside W) (settings : Settings) where
  open outside use {now, random, wait, ctx_error, classify, invoke, await_client, is_skipped, trim}

  -- HumanResponseTimeoutSeconds, or five minutes, in nanoseconds.
  human_timeout : ℤ
  human_timeout =
      let timeout = seconds settings.human_response_timeout_seconds in
      if ltb_ℤ (pos 0) timeout then timeout else pos 300000000000
    where
      seconds : ℤ → ℤ
      seconds s = mul64 s 1000000000

  module _ (recalling : Bool) (tc : LlmToolUse) where
    answered : Tool → Result Failure String → Called
    answered tool (err e) = record {
      out = "";
      failure = some (wrapped (concat "client-tool " tc.name) e);
      attempts = 1;
      last_class = none;
    }
    answered tool (ok out) = record {
      out = out;
      failure = if is_skipped out then some (plain "user declined to answer") else none;
      attempts = 1;
      last_class = none;
    }

    -- A client tool waits for the client's answer.
    await_tool : Tool → Run W → Called × Run W
    unfolding answered human_timeout
    await_tool tool r =
        let (answer, w) = await_client tc.id human_timeout r.world in
        (answered tool answer, act (awaited tc.name tc.id) (record { world = w; trace = r.trace }))

    invoke_op : Option ℤ → ℕ → Run W → String × Option Failure × Run W
    unfolding emit_attachments
    invoke_op timeout k r =
        let (out, e, attachments, w) = invoke timeout k tc.name tc.input r.world in
        (
          out,
          e,
          emit_attachments recalling attachments
              (act (invoked tc.name tc.id) (record { world = w; trace = r.trace })),
        )

    unfoldable pub tool_world : World (Run W) String
    unfolding invoke_op
    tool_world = record {
      now = λ r. on_world (now r.world) r;
      op = invoke_op;
      random = λ r. on_world (random r.world) r;
      wait = λ d r. on_world (wait d r.world) r;
      ctx_error = λ r. ctx_error r.world;
      zero_value = "";
      classify = classify;
    }

    called_of : Outcome String → Called
    called_of res = record {
      out = res.value;
      failure = res.error;
      attempts = if eqb res.attempts 0 then 1 else res.attempts;
      last_class = res.last_class;
    }

    -- Any other tool is invoked under its retry policy.
    invoke_tool : Tool → Run W → Called × Run W
    unfolding called_of
    invoke_tool tool r =
        let (res, r') = do_retry tool_world tool.retry_policy r in (called_of res, r')

    unfoldable pub call_tool : Tool → Run W → Called × Run W
    unfolding await_tool invoke_tool
    call_tool tool r = elim tool.client_only [
      | true ↦ await_tool tool r
      | false ↦ invoke_tool tool r
    ]

    code_of : Option Class → String
    code_of none = "validation"
    code_of (some c) = class_name c

    error_payload : Failure → Called → ToolPayload
    unfolding code_of
    error_payload e called = elim (allowed_indices e) [
      | some indices ↦ policy_deny e indices called.attempts
      | none ↦ failed e (code_of called.last_class) called.attempts
    ]

    payload_of : Called → ToolPayload
    unfolding error_payload
    payload_of called = elim called.failure [
      | some e ↦ error_payload e called
      | none ↦ if is_blank_tool_payload trim called.out then no_output else output called.out
    ]

    -- The result goes to the client and into the conversation.
    unfoldable pub surface : Counts → ToolPayload → Bool → Run W → Step W
    surface counts payload is_error r =
        stepped counts (tool_result tc.id payload is_error)
          (emit recalling (tool_output tc.id payload is_error) r)

    failed_call : Counts → Tool → Failure → Called → Run W → Step W
    unfolding surface error_payload
    failed_call counts tool e called r =
        if tool.terminates
        then halted e r
        else surface (bump tc.name counts) (error_payload e called) true r

    after_call : Counts → Tool → Called → Run W → Step W
    unfolding failed_call surface payload_of
    after_call counts tool called r = elim called.failure [
      | some e ↦ failed_call counts tool e called r
      | none ↦ surface counts (payload_of called) false r
    ]

    -- A tool with too many errors is not called any more.
    known_tool : Counts → Tool → Run W → Step W
    unfolding after_call surface
    known_tool counts tool r = elim (ltb settings.max_tool_retries (counts tc.name)) [
      | true ↦
          surface counts (retry_cap_exceeded tc.name (counts tc.name) settings.max_tool_retries)
            true r
      | false ↦ let (called, r') = call_tool tool r in after_call counts tool called r'
    ]

    -- One round of the loop over the calls. The client is not told of an unknown tool.
    unfoldable pub step_call : Counts → Run W → Step W
    unfolding known_tool
    step_call counts r = elim (lookup_tool settings.tools tc.name) [
      | none ↦ stepped counts (tool_result tc.id (unknown_tool tc.name) true) r
      | some tool ↦ known_tool counts tool r
    ]

  after_step : Bool → Step W → (Counts → Run W → Results W) → Results W
  after_step recalling (halted e r) next = halted_by e r
  after_step recalling (stepped counts block r) next = elim (next counts r) [
    | halted_by e r' ↦ halted_by e r'
    | results counts' blocks r' ↦ results counts' (block ∷ blocks) r'
  ]

  unfoldable pub run_calls : Bool → List LlmToolUse → Counts → Run W → Results W
  unfolding after_step
  run_calls recalling [] counts r = results counts [] r
  run_calls recalling (tc ∷ tcs) counts r =
      after_step recalling (step_call recalling tc counts r)
        (λ counts' r'. run_calls recalling tcs counts' r')
