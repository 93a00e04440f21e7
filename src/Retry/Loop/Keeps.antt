-- ===== src/Retry/Loop/Keeps.antt =====
-- What the clock, the operation, the random source and the waiting preserve, `Do` preserves.
use ai_agent_go_service.Prelude.{
  ℕ, zero, suc, ◌+◌, Bool, true, false, Option, some, none, eqb, leb, Bool-cases, inl, inr,
}
use ai_agent_go_service.Prelude.Int.{ℤ, pos, ltb_ℤ}
use ai_agent_go_service.Retry.Types.{Policy, Failure, Outcome}
use ai_agent_go_service.Retry.Policy.{in_retry_on}
use ai_agent_go_service.Retry.Delay.{next_delay}
use ai_agent_go_service.Retry.Delay.Laws.{next_delay_holds}
use ai_agent_go_service.Retry.Loop.{
  World, finish, single_result, run_once, attempt_timeout, over_budget, after_wait, after_budget,
  pause, after_attempt, attempts_from, do_policy, do_retry,
}

-- A predicate on the caller's state that every effect of the world preserves.
pub record Kept {W T : Type 0} (world : World W T) (P : W → Type 0) : Type 0 where
  pub now_keeps : (w : W) → P w → P (world.now w).1
  pub op_keeps : (t : Option ℤ) (k : ℕ) (w : W) → P w → P (world.op t k w).2
  pub random_keeps : (w : W) → P w → P (world.random w).1
  pub wait_keeps : (d : ℤ) (w : W) → P w → P (world.wait d w).1

module _ {W T : Type 0} (world : World W T) (P : W → Type 0) (kept : Kept world P) where
  single_result-keeps :
      (start : ℤ) (v : T) (e : Option Failure) (w : W) → P w → P (single_result world start v e w).1
  unfolding single_result finish
  single_result-keeps start v none w h = kept.now_keeps w h
  single_result-keeps start v (some e) w h = kept.now_keeps w h

  run_once-keeps : (start : ℤ) (w : W) → P w → P (run_once world start w).1
  unfolding run_once
  run_once-keeps start w h =
      let (v, e, w') = world.op none 1 w in
      single_result-keeps start v e w' (kept.op_keeps none 1 w h)

  over_budget-keeps : (p : Policy) (start d : ℤ) (w : W) → P w → P (over_budget world p start d w).1
  unfolding over_budget
  over_budget-keeps p start d w h = elim (Bool-cases (ltb_ℤ (pos 0) p.total_budget)) [
    | inl t ↦ rw t (kept.now_keeps w h)
    | inr f ↦ rw f h
  ]

  module _ (start : ℤ) (k : ℕ) (v : T) (next : W → Outcome T × W)
      (go_on : (w : W) → P w → P (next w).1) where
    after_wait-keeps :
        (e : Failure) (b : Bool × W) → P b.1 → P (after_wait world start k v e b next).1
    unfolding after_wait finish
    after_wait-keeps e (true, w) h = go_on w h
    after_wait-keeps e (false, w) h = kept.now_keeps w h

    after_budget-keeps :
        (e : Failure) (d : ℤ) (b : Bool × W) → P b.1 → P (after_budget world start k v e d b next).1
    unfolding after_budget finish
    after_budget-keeps e d (true, w) h = kept.now_keeps w h
    after_budget-keeps e d (false, w) h =
        after_wait-keeps e (world.wait d w) (kept.wait_keeps d w h)

    pause-keeps : (p : Policy) (e : Failure) (w : W) → P w → P (pause world p start k v e w next).1
    unfolding pause
    pause-keeps p e w h =
        let (d, w') = next_delay world.random p k w in
        after_budget-keeps e d (over_budget world p start d w') (
          over_budget-keeps p start d w'
            (next_delay_holds world.random p k P kept.random_keeps w h))

    after_attempt-keeps :
        (p : Policy) (e : Option Failure) (w : W)
        → P w
        → P (after_attempt world p start k v e w next).1
    unfolding after_attempt finish
    after_attempt-keeps p none w h = kept.now_keeps w h
    after_attempt-keeps p (some e) w h =
        elim (Bool-cases (in_retry_on (some p) (world.classify e))) [
          | inl again ↦ rw again (elim (Bool-cases (eqb k p.max_attempts)) [
            | inl last ↦ rw last (kept.now_keeps w h)
            | inr more ↦ rw more (pause-keeps p e w h)
          ])
          | inr stop ↦ rw stop (kept.now_keeps w h)
        ]

  attempts_from-keeps :
      (p : Policy) (start : ℤ) (rounds k : ℕ) (w : W)
      → P w
      → P (attempts_from world p start rounds k w).1
  unfolding attempts_from finish
  attempts_from-keeps p start zero k w h = kept.now_keeps w h
  attempts_from-keeps p start (suc rounds) k w h =
      let (v, e, w') = world.op (attempt_timeout world p) k w in
      after_attempt-keeps start k v (λ w''. attempts_from world p start rounds (k + 1) w'')
        (λ w'' h'. attempts_from-keeps p start rounds (k + 1) w'' h') p e w'
        (kept.op_keeps (attempt_timeout world p) k w h)

  do_policy-keeps : (p : Option Policy) (start : ℤ) (w : W) → P w → P (do_policy world p start w).1
  unfolding do_policy
  do_policy-keeps none start w h = run_once-keeps start w h
  do_policy-keeps (some p) start w h = elim (Bool-cases (leb p.max_attempts 1)) [
    | inl one ↦ rw one (run_once-keeps start w h)
    | inr more ↦ rw more (attempts_from-keeps p start p.max_attempts 1 _ (kept.now_keeps w h))
  ]

  -- The state after the last attempt.
  pub do_retry-keeps : (p : Option Policy) (w : W) → P w → P (do_retry world p w).1
  unfolding do_retry
  do_retry-keeps p w h = do_policy-keeps p _ _ (kept.now_keeps w h)
