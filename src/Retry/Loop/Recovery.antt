-- ===== src/Retry/Loop/Recovery.antt =====
-- An operation that fails for a while and then succeeds.
use ai_agent_go_service.Prelude.{
  ℕ, zero, suc, ◌+◌, ◌-◌, ◌≤◌, ◌<◌, ◌≡◌, refl, subst, Bool, true, false, Option, some, none, eqb,
  leb, arith, Bool-cases, inl, inr,
}
use ai_agent_go_service.Prelude.Int.{ℤ, pos, ltb_ℤ}
use ai_agent_go_service.Retry.Types.{Policy, succeeded, Failure, Outcome}
use ai_agent_go_service.Retry.Policy.{in_retry_on}
use ai_agent_go_service.Retry.Delay.{next_delay}
use ai_agent_go_service.Retry.Loop.{
  World, finish, attempt_timeout, over_budget, after_wait, after_budget, pause, after_attempt,
  attempts_from, single_result, run_once, do_retry,
}

module _ {W T : Type 0} (world : World W T) (p : Policy) (start : ℤ) where
  over_budget-unlimited :
      (d : ℤ) (w : W)
      → ltb_ℤ (pos 0) p.total_budget ≡ false
      → over_budget world p start d w ≡ (false, w)
  unfolding over_budget
  over_budget-unlimited d w h = rw h

  after_wait-fired :
      (k : ℕ) (v : T) (e : Failure) (b : Bool × W) (next : W → Outcome T × W)
      → b.0 ≡ true
      → after_wait world start k v e b next ≡ next b.1
  unfolding after_wait
  after_wait-fired k v e (true, w) next h = refl
  after_wait-fired k v e (false, w) next h = absurd (ground arith)

-- The operation fails in its first k runs with errors that the policy retries, and then succeeds.
pub record SucceedsAfter {W T : Type 0} (world : World W T) (p : Policy) (k : ℕ) : Type 0 where
  pub fails :
      (j : ℕ) (t : Option ℤ) (w : W)
      → j ≤ k
      → 0 < j
      → (e : Failure) × ((world.op t j w).1 ≡ some e)
        × (in_retry_on (some p) (world.classify e) ≡ true)
  pub succeeds : (t : Option ℤ) (w : W) → (world.op t (k + 1) w).1 ≡ none

abbrev pub Recovered : {W T : Type 0} → ℕ → Outcome T × W → Type 0
Recovered k r = (r.0.decision ≡ succeeded) × (r.0.error ≡ none) × (r.0.attempts ≡ k + 1)

module _ {W T : Type 0} (world : World W T) (p : Policy)
    (patient : (d : ℤ) (w : W) → (world.wait d w).0 ≡ true)
    (unlimited : ltb_ℤ (pos 0) p.total_budget ≡ false) where
  -- With no budget and no cancellation, a pause ends in the next attempt.
  pause-next :
      (start : ℤ) (k : ℕ) (v : T) (e : Failure) (w : W) (next : W → Outcome T × W)
      → (w' : W) × (pause world p start k v e w next ≡ next w')
  unfolding pause after_budget
  pause-next start k v e w next =
      let (d, w') = next_delay world.random p k w in
      (
        (world.wait d w').1,
        rw (over_budget-unlimited world p start d w' unlimited)
            (after_wait-fired world p start k v e (world.wait d w') next (patient d w')),
      )

  after_attempt-next :
      (start : ℤ) (k : ℕ) (v : T) (o : Option Failure) (e : Failure) (w : W)
      (next : W → Outcome T × W)
      → o ≡ some e
      → in_retry_on (some p) (world.classify e) ≡ true
      → k < p.max_attempts
      → (w' : W) × (after_attempt world p start k v o w next ≡ next w')
  unfolding after_attempt
  after_attempt-next start k v none e w next h retried low = absurd (ground arith)
  after_attempt-next start k v (some x) e w next h retried low =
      let (w', q) = pause-next start k v x w next in
      let same : in_retry_on (some p) (world.classify x) ≡ true = ground arith in
      let more : eqb k p.max_attempts ≡ false = ground arith in (w', rw same (rw more q))

  after_attempt-done :
      (start : ℤ) (k : ℕ) (v : T) (o : Option Failure) (w : W) (next : W → Outcome T × W)
      → o ≡ none
      → Recovered k (after_attempt world p start (k + 1) v o w next)
  unfolding after_attempt finish
  after_attempt-done start k v none w next h = (refl, refl, refl)
  after_attempt-done start k v (some e) w next h = absurd (ground arith)

  recovers :
      (k n j rounds : ℕ) (start : ℤ) (w : W)
      → SucceedsAfter world p k
      → j + n ≡ k + 1
      → j + suc rounds ≡ suc p.max_attempts
      → k < p.max_attempts
      → 0 < j
      → Recovered k (attempts_from world p start (suc rounds) j w)
  unfolding attempts_from
  recovers k zero j rounds start w s hn hr low started =
      let (v, o, w') = world.op (attempt_timeout world p) j w in
      subst
        (λ i. Recovered k (
          after_attempt world p start i v o w'
            (λ w''. attempts_from world p start rounds (j + 1) w'')))
        (omega arith) (after_attempt-done start k v o w' _ (done j (omega arith)))
    where
      done : (j : ℕ) → j ≡ k + 1 → (world.op (attempt_timeout world p) j w).1 ≡ none
      done j e = rw e (s.succeeds _ w)
  recovers k (suc n) j zero start w s hn hr low started = absurd (omega arith)
  recovers k (suc n) j (suc rounds) start w s hn hr low started =
      let (v, o, w') = world.op (attempt_timeout world p) j w in
      let (e, failed, retried) = s.fails j (attempt_timeout world p) w (omega arith) started in
      let (w'', q) =
        after_attempt-next start j v o e w'
          (λ x. attempts_from world p start (suc rounds) (j + 1) x) failed retried (omega arith) in
      rw q (recovers k n (j + 1) rounds start w'' s (omega arith) (omega arith) low (omega arith))

  started :
      (k n : ℕ) (start : ℤ) (w : W)
      → SucceedsAfter world p k
      → k < p.max_attempts
      → suc n ≡ p.max_attempts
      → Recovered k (attempts_from world p start p.max_attempts 1 w)
  started k n start w s low h =
      subst (λ m. Recovered k (attempts_from world p start m 1 w)) h
        (recovers k k 1 n start w s (omega arith) (omega arith) low (omega arith))

  single_result-done :
      (k : ℕ) (start : ℤ) (v : T) (o : Option Failure) (w : W)
      → o ≡ none
      → k ≡ 0
      → Recovered k (single_result world start v o w)
  unfolding single_result finish
  single_result-done k start v none w h q = (refl, refl, omega arith)
  single_result-done k start v (some e) w h q = absurd (ground arith)

  -- Where the policy allows one attempt, the operation runs once, and has no failures to recover from.
  single :
      (k : ℕ) (start : ℤ) (w : W)
      → SucceedsAfter world p k
      → k ≡ 0
      → Recovered k (run_once world start w)
  unfolding run_once
  single k start w s zero_runs =
      let (v, o, w') = world.op none 1 w in
      single_result-done k start v o w' (done 1 (omega arith)) zero_runs
    where
      done : (j : ℕ) → j ≡ k + 1 → (world.op none j w).1 ≡ none
      done j e = rw e (s.succeeds none w)

  -- If the context is never done, no budget is set, and the operation fails k times with errors
  -- that the policy retries and then succeeds, where k is below the maximal number of attempts,
  -- then `Do` reports success after k + 1 attempts.
  pub do_retry-recovers :
      (k : ℕ) (w : W)
      → SucceedsAfter world p k
      → k < p.max_attempts
      → Recovered k (do_retry world (some p) w)
  unfolding do_retry
  do_retry-recovers k w s low = elim (Bool-cases (leb p.max_attempts 1)) [
    | inl one ↦ rw one (single k _ _ s (ground arith))
    | inr more ↦ rw more (
        started k (p.max_attempts - 1) _ _ s low
          (let many : 1 < p.max_attempts = ground arith in omega arith))
  ]
