-- ===== src/Agent/Stream/Examples.antt =====
-- A stream that breaks off after one delta, under a policy that retries every class.
use ai_agent_go_service.Prelude.{String, ◌≡◌, refl, false, [], ◌∷◌, some}
use ai_agent_go_service.Prelude.Int.{pos}
use ai_agent_go_service.Retry.Types.{
  Failure, tool_error, plain, class_name, stream_emitted, validation, Policy, fixed,
}
use ai_agent_go_service.Retry.Classify.{classify}
use ai_agent_go_service.Retry.Policy.{in_retry_on}
use ai_agent_go_service.Agent.Stream.{Signals, stream_closed, llm_event, stream_attempt}
use ai_agent_go_service.Agent.Stream.Laws.{stream_attempt-retried}

abbrev broken : Signals String
broken = llm_event "Hel" (stream_closed (some (plain "unexpected EOF")))

abbrev policy : Policy
policy = record {
  max_attempts = 3;
  backoff = fixed;
  initial_delay = pos 500;
  max_delay = pos 30000;
  jitter = false;
  retry_on = validation ∷ [];
  per_attempt_timeout = pos 0;
  total_budget = pos 0;
}

abbrev error : Failure
error = tool_error (class_name stream_emitted) false (plain "unexpected EOF")

stream_attempt-retried_example :
    in_retry_on (some policy) (classify (λ e. false) error) ≡ in_retry_on (some policy) validation
unfolding stream_attempt
stream_attempt-retried_example =
    stream_attempt-retried (λ e. false) (some policy) broken "Hel" [] error refl refl
