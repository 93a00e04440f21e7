-- ===== src/Retry/Loop.antt =====
-- `Do` of retry.go, with no logger. Everything around it, the clock, the operation, the random
-- number and the `select` between the timer and the context, acts on a state `W` of the caller.
pub mod Ends
pub mod Laws
pub mod Recovery
pub mod Keeps
pub mod Examples
use ai_agent_go_service.Prelude.{
  ℕ, zero, suc, ◌+◌, leb, eqb, Bool, true, false, Option, some, none, if◌then◌else◌,
}
use ai_agent_go_service.Prelude.Int.{ℤ, pos, negsuc, ltb_ℤ, ◌+ℤ◌, ◌-ℤ◌}
use ai_agent_go_service.Retry.Types.{
  Class, Policy, Decision, succeeded, exhausted_retries, not_retryable, budget_expired, cancelled,
  Failure, Outcome,
}
use ai_agent_go_service.Retry.Policy.{in_retry_on}
use ai_agent_go_service.Retry.Delay.{next_delay}

-- `op` takes the attempt's own timeout, if there is one, and the attempt's number; `wait` says
-- whether the timer fired before the context was done; `random` gives the number for the jitter.
pub record World (W T : Type 0) : Type 0 where
  pub now : W → ℤ × W
  pub op : Option ℤ → ℕ → W → T × Option Failure × W
  pub random : W → ℕ × W
  pub wait : ℤ → W → Bool × W
  pub ctx_error : W → Failure
  pub zero_value : T
  pub classify : Failure → Class

-- Time.Sub stops at the ends of int64.
time_sub : ℤ → ℤ → ℤ
time_sub t start =
    let d = t -ℤ start in
    if ltb_ℤ (pos 9223372036854775807) d
    then pos 9223372036854775807
    else if ltb_ℤ d (negsuc 9223372036854775807)
    then negsuc 9223372036854775807
    else d

module _ {W T : Type 0} (world : World W T) where
  open world use {now, op, random, wait, ctx_error, zero_value, classify}

  -- The returned record, with the time since the start read as it is built.
  pub finish : ℤ → T → Option Failure → ℕ → Option Class → Decision → W → Outcome T × W
  unfolding time_sub
  finish start v e attempts class decision w =
      let (t, w') = now w in
      (
        record {
          value = v;
          error = e;
          attempts = attempts;
          last_class = class;
          decision = decision;
          elapsed = time_sub t start;
        },
        w',
      )

  single_result : ℤ → T → Option Failure → W → Outcome T × W
  unfolding finish
  single_result start v none w = finish start v none 1 none succeeded w
  single_result start v (some e) w = finish start v (some e) 1 (some (classify e)) not_retryable w

  -- No policy, or one attempt: the operation runs once.
  run_once : ℤ → W → Outcome T × W
  unfolding single_result
  run_once start w = let (v, e, w') = op none 1 w in single_result start v e w'

  attempt_timeout : Policy → Option ℤ
  attempt_timeout p =
      if ltb_ℤ (pos 0) p.per_attempt_timeout then some p.per_attempt_timeout else none

  -- The budget test reads the clock only if there is a budget.
  over_budget : Policy → ℤ → ℤ → W → Bool × W
  unfolding time_sub
  over_budget p start delay w =
      if ltb_ℤ (pos 0) p.total_budget
      then (let (t, w') = now w in (ltb_ℤ p.total_budget (time_sub (t +ℤ delay) start), w'))
      else (false, w)

  -- The `select`; `next` runs the attempts that follow.
  after_wait : ℤ → ℕ → T → Failure → Bool × W → (W → Outcome T × W) → Outcome T × W
  unfolding finish
  after_wait start attempt v e (true, w) next = next w
  after_wait start attempt v e (false, w) next =
      finish start v (some (ctx_error w)) attempt (some (classify e)) cancelled w

  after_budget : ℤ → ℕ → T → Failure → ℤ → Bool × W → (W → Outcome T × W) → Outcome T × W
  unfolding finish
  after_budget start attempt v e delay (true, w) next =
      finish start v (some e) attempt (some (classify e)) budget_expired w
  after_budget start attempt v e delay (false, w) next =
      after_wait start attempt v e (wait delay w) next

  -- What follows a failed attempt that is to be retried.
  pause : Policy → ℤ → ℕ → T → Failure → W → (W → Outcome T × W) → Outcome T × W
  unfolding after_wait after_budget over_budget
  pause p start attempt v e w next =
      let (delay, w') = next_delay random p attempt w in
      after_budget start attempt v e delay (over_budget p start delay w') next

  after_attempt : Policy → ℤ → ℕ → T → Option Failure → W → (W → Outcome T × W) → Outcome T × W
  after_attempt p start attempt v none w next = finish start v none attempt none succeeded w
  after_attempt p start attempt v (some e) w next =
      let retried = pause p start attempt v e w next in
      let stopped = finish start v (some e) attempt (some (classify e)) not_retryable w in
      let exhausted =
        finish start v (some e) p.max_attempts (some (classify e)) exhausted_retries w in
      if in_retry_on (some p) (classify e)
      then (if eqb attempt p.max_attempts then exhausted else retried)
      else stopped

  -- The loop over attempts; `rounds` are those left, this one included.
  attempts_from : Policy → ℤ → ℕ → ℕ → W → Outcome T × W
  unfolding attempt_timeout after_attempt pause
  attempts_from p start zero attempt w =
      finish start zero_value none p.max_attempts none exhausted_retries w
  attempts_from p start (suc rounds) attempt w =
      let (v, e, w') = op (attempt_timeout p) attempt w in
      after_attempt p start attempt v e w' (λ w''. attempts_from p start rounds (attempt + 1) w'')

  -- The random source is seeded from the clock before the first attempt.
  do_policy : Option Policy → ℤ → W → Outcome T × W
  do_policy none start w = run_once start w
  do_policy (some p) start w =
      if leb p.max_attempts 1
      then run_once start w
      else (let (seed, w') = now w in attempts_from p start p.max_attempts 1 w')

  unfoldable pub do_retry : Option Policy → W → Outcome T × W
  unfolding do_policy run_once attempts_from
  do_retry p w = let (start, w') = now w in do_policy p start w'
