-- ===== src/Retry/Loop/Ends.antt =====
-- Why a run of `Do` ended as it did: what each decision says of the last attempt.
use ai_agent_go_service.Prelude.{ℕ, ◌<◌, ◌≡◌, Bool, true, false, Option, some, none}
use ai_agent_go_service.Prelude.Int.{ℤ, pos, ltb_ℤ}
use ai_agent_go_service.Retry.Types.{
  Policy, Decision, succeeded, exhausted_retries, not_retryable, budget_expired, cancelled, Failure,
  Outcome,
}
use ai_agent_go_service.Retry.Policy.{in_retry_on}
use ai_agent_go_service.Retry.Loop.{World}

module _ {W T : Type 0} (world : World W T) where
  -- Some run of the operation as this attempt gave this value and this failure, if any.
  unfoldable pub Ran : ℕ → T → Option Failure → Type 0
  Ran n v o = (t : Option ℤ) × (w : W) × ((world.op t n w).0 ≡ v) × ((world.op t n w).1 ≡ o)

  -- The last attempt failed with this error, whose class is reported, and is to be retried or not.
  pub record Failed (p : Policy) (r : Outcome T) (again : Bool) (e : Failure) : Type 0 where
    pub ran : Ran r.attempts r.value (some e)
    pub class : r.last_class ≡ some (world.classify e)
    pub retried : in_retry_on (some p) (world.classify e) ≡ again

  abbrev pub Stopped : Policy → Outcome T → Bool → Type 0
  Stopped p r again = (e : Failure) × (r.error ≡ some e) × Failed p r again e

  -- The context was done before a timer fired, and this is its error.
  unfoldable pub CtxDone : Option Failure → Type 0
  CtxDone o =
      (d : ℤ) × (w : W) × ((world.wait d w).0 ≡ false)
      × (o ≡ some (world.ctx_error (world.wait d w).1))

  -- Why a run under a policy ended as it did.
  abbrev pub Explains : Policy → Outcome T → Decision → Type 0
  Explains p r succeeded = Ran r.attempts r.value none × (r.error ≡ none) × (r.last_class ≡ none)
  Explains p r exhausted_retries = (r.attempts ≡ p.max_attempts) × Stopped p r true
  Explains p r not_retryable = Stopped p r false
  Explains p r budget_expired =
      (r.attempts < p.max_attempts) × (ltb_ℤ (pos 0) p.total_budget ≡ true) × Stopped p r true
  Explains p r cancelled =
      (r.attempts < p.max_attempts) × CtxDone r.error × ((e : Failure) × Failed p r true e)
