-- ===== src/Retry/Policy/Examples.antt =====
-- A retry block as it stands in a workflow file.
use ai_agent_go_service.Prelude.{◌≡◌, refl, false, [], ◌∷◌, some, none, ok}
use ai_agent_go_service.Prelude.Int.{pos, negsuc, mul64}
use ai_agent_go_service.Retry.Types.{exponential, timeout, transient, Policy, class_of}
use ai_agent_go_service.Retry.Policy.{RawPolicy, build_policy, default_policy, parse_classes}
use ai_agent_go_service.Retry.Policy.Accepts.{is_ok, is_acceptable, build_policy-accepts}

abbrev five_attempts : RawPolicy
five_attempts = record {
  max_attempts = some (pos 5);
  backoff = "exponential";
  initial_delay_ms = some (pos 200);
  max_delay_ms = none;
  jitter = some false;
  retry_on = some ("timeout" ∷ "transient" ∷ []);
  per_attempt_timeout_seconds = some (pos 30);
  total_budget_seconds = none;
}

abbrev five_attempts_policy : Policy
five_attempts_policy = record {
  max_attempts = 5;
  backoff = exponential;
  initial_delay = pos 200000000;
  max_delay = pos 5000000000;
  jitter = false;
  retry_on = timeout ∷ transient ∷ [];
  per_attempt_timeout = pos 30000000000;
  total_budget = pos 0;
}

abbrev negative_delay : RawPolicy
negative_delay = record five_attempts { max_delay_ms = some (negsuc 0) }

five_attempts_build : build_policy five_attempts ≡ ok five_attempts_policy
unfolding build_policy parse_classes class_of default_policy mul64
five_attempts_build = refl

build_policy-accepts_example : is_ok (build_policy negative_delay) ≡ is_acceptable negative_delay
build_policy-accepts_example = build_policy-accepts negative_delay
