-- ===== src/Retry/Loop/Examples.antt =====
-- A service that answers 429 twice and then succeeds; the state counts the calls.
use ai_agent_go_service.Prelude.{
  ℕ, suc, ◌+◌, ◌≤◌, ◌≡◌, refl, true, [], ◌∷◌, some, none, leb, arith, if◌then◌else◌,
}
use ai_agent_go_service.Prelude.Int.{pos}
use ai_agent_go_service.Retry.Types.{
  Policy, exponential, transient, timeout, plain, canceled, is_class,
}
use ai_agent_go_service.Retry.Classify.{
  classify, as_tool_error, is_deadline, is_canceled, is_policy_denied,
}
use ai_agent_go_service.Retry.Policy.{in_retry_on}
use ai_agent_go_service.Retry.Loop.{World, do_retry}
use ai_agent_go_service.Retry.Loop.Ends.{Explains}
use ai_agent_go_service.Retry.Loop.Laws.{Counts, do_retry-Explains}
use ai_agent_go_service.Retry.Loop.Recovery.{SucceedsAfter, Recovered, do_retry-recovers}

abbrev flaky : World ℕ ℕ
flaky = record {
  now = λ w. (pos w, w);
  op = λ t k w. (k, (if leb k 2 then some (plain "status 429") else none), suc w);
  random = λ w. (4503599627370496, w);
  wait = λ d w. (true, w);
  ctx_error = λ w. canceled;
  zero_value = 0;
  classify = classify (λ e. true);
}

abbrev policy : Policy
policy = record {
  max_attempts = 3;
  backoff = exponential;
  initial_delay = pos 500000000;
  max_delay = pos 5000000000;
  jitter = true;
  retry_on = transient ∷ timeout ∷ [];
  per_attempt_timeout = pos 0;
  total_budget = pos 0;
}

abbrev counter : ℕ → ℕ
counter w = w

abbrev flaky_counts : Counts flaky counter
flaky_counts = record {
  now_keeps = λ w. refl;
  op_counts = λ t k w. refl;
  random_keeps = λ w. refl;
  wait_keeps = λ d w. refl;
}

do_retry-Explains_example :
    let r = do_retry flaky (some policy) 0 in
    (counter r.1 ≡ counter 0 + r.0.attempts)
    × (1 ≤ r.0.attempts)
    × (r.0.attempts ≤ policy.max_attempts)
    × Explains flaky policy r.0 r.0.decision
do_retry-Explains_example = do_retry-Explains flaky counter flaky_counts policy 0 (omega arith)

flaky-SucceedsAfter : SucceedsAfter flaky policy 2
unfolding in_retry_on classify is_class as_tool_error is_deadline is_canceled is_policy_denied
flaky-SucceedsAfter = record {
  fails = λ j t w h l. (plain "status 429", ground arith, refl);
  succeeds = λ t w. refl;
}

do_retry-recovers_example : Recovered 2 (do_retry flaky (some policy) 0)
do_retry-recovers_example =
    do_retry-recovers flaky policy (λ d w. refl) refl 2 0 flaky-SucceedsAfter (omega arith)
