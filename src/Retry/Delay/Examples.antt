-- ===== src/Retry/Delay/Examples.antt =====
-- Delays of concrete policies.
use ai_agent_go_service.Prelude.{ℕ, ◌≡◌, refl, true, [], arith}
use ai_agent_go_service.Prelude.Int.{pos, ltb_ℤ, mul64, ◌≤ℤ◌}
use ai_agent_go_service.Retry.Types.{Policy, exponential}
use ai_agent_go_service.Retry.Jitter.{with_jitter}
use ai_agent_go_service.Retry.Delay.{raw_delay, next_delay}
use ai_agent_go_service.Retry.Delay.Laws.{next_delay-le, raw_delay-overflow}

-- One second at first, and at most five.
abbrev seconds : Policy
seconds = record {
  max_attempts = 10;
  backoff = exponential;
  initial_delay = pos 1000000000;
  max_delay = pos 5000000000;
  jitter = true;
  retry_on = [];
  per_attempt_timeout = pos 0;
  total_budget = pos 0;
}

-- An initial delay of 20,000,000,000 ms, doubled nine times.
abbrev years : Policy
years = record seconds { initial_delay = pos 20000000000000000 }

-- A source that gives three quarters each time.
abbrev three_quarters : ℕ → ℕ × ℕ
three_quarters w = (6755399441055744, w)

jittered_delay : next_delay three_quarters seconds 2 0 ≡ (pos 1750000000, 0)
unfolding next_delay raw_delay with_jitter mul64
jittered_delay = refl

next_delay-le_example : (next_delay three_quarters seconds 4 0).0 ≤ℤ pos 5000000000
next_delay-le_example =
    next_delay-le three_quarters seconds 4 0 5000000000 refl (omega arith) (omega arith)
      (λ w. omega arith)

raw_delay-overflow_example : ltb_ℤ (raw_delay years 10) (pos 0) ≡ true
raw_delay-overflow_example =
    raw_delay-overflow years 10 20000000000000000 5000000000 refl refl refl (omega arith)
      (omega arith)
