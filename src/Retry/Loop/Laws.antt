-- ===== src/Retry/Loop/Laws.antt =====
-- What `Do` returns: how often the operation ran, and why it stopped. The number of runs is read
-- off a counter of the caller's state that the operation alone moves.
use ai_agent_go_service.Prelude.{
  ℕ, zero, suc, ◌+◌, ◌-◌, ◌≤◌, ◌<◌, ◌≡◌, refl, Bool, true, false, Option, some, none, eqb, leb, ◌∙◌,
  subst, arith, Bool-cases, inl, inr,
}
use ai_agent_go_service.Prelude.Int.{ℤ, pos, ltb_ℤ}
use ai_agent_go_service.Retry.Types.{
  Class, Policy, Decision, succeeded, exhausted_retries, Failure, Outcome,
}
use ai_agent_go_service.Retry.Policy.{in_retry_on}
use ai_agent_go_service.Retry.Delay.{next_delay}
use ai_agent_go_service.Retry.Delay.Laws.{next_delay_keeps}
use ai_agent_go_service.Retry.Loop.{
  World, finish, run_once, attempt_timeout, over_budget, after_wait, after_budget, pause,
  after_attempt, attempts_from, do_retry,
}
use ai_agent_go_service.Retry.Loop.Ends.{Ran, Failed, CtxDone, Explains}

-- `calls` counts the runs of the operation.
pub record Counts {W T : Type 0} (world : World W T) (calls : W → ℕ) : Type 0 where
  pub now_keeps : (w : W) → calls (world.now w).1 ≡ calls w
  pub op_counts : (t : Option ℤ) (k : ℕ) (w : W) → calls (world.op t k w).2 ≡ suc (calls w)
  pub random_keeps : (w : W) → calls (world.random w).1 ≡ calls w
  pub wait_keeps : (d : ℤ) (w : W) → calls (world.wait d w).1 ≡ calls w

not_single : (p : Policy) → 1 < p.max_attempts → leb p.max_attempts 1 ≡ false
not_single p h = ground arith

module _ {W T : Type 0} (world : World W T) (calls : W → ℕ) (counts : Counts world calls) where
  -- What holds of a result that was started in `w` after `k` runs, the last one done.
  record Sound (p : Policy) (k : ℕ) (w : W) (r : Outcome T × W) : Type 0 where
    tally : calls r.1 + k ≡ calls w + r.0.attempts
    low : k ≤ r.0.attempts
    high : r.0.attempts ≤ p.max_attempts
    explained : Explains world p r.0 r.0.decision

  module _ (p : Policy) (start : ℤ) (k : ℕ) (v : T) where
    finish-Sound :
        (e : Option Failure) (c : Option Class) (d : Decision) (w : W)
        → k ≤ p.max_attempts
        → Explains world p (finish world start v e k c d w).0 d
        → Sound p k w (finish world start v e k c d w)
    unfolding finish
    finish-Sound e c d w h x = record {
      tally = omega (arith, counts.now_keeps w);
      low = omega arith;
      high = h;
      explained = x;
    }

    failed :
        {r : Outcome T} {again : Bool} {e : Failure}
        → r.attempts ≡ k
        → r.value ≡ v
        → r.last_class ≡ some (world.classify e)
        → Ran world k v (some e)
        → in_retry_on (some p) (world.classify e) ≡ again
        → Failed world p r again e
    unfolding Ran
    failed {e = e} n q c ran again = record { ran = rw (n, q) ran; class = c; retried = again }

    module _ (e : Failure) (next : W → Outcome T × W) (low : k < p.max_attempts)
        (ran : Ran world k v (some e)) (retried : in_retry_on (some p) (world.classify e) ≡ true)
        (go_on : (w : W) → Sound p k w (next w)) where
      after_wait-Sound :
          (b : Bool × W)
          → (b.0 ≡ false → CtxDone world (some (world.ctx_error b.1)))
          → Sound p k b.1 (after_wait world start k v e b next)
      unfolding after_wait finish
      after_wait-Sound (true, w) h = go_on w
      after_wait-Sound (false, w) h =
          finish-Sound _ _ _ w (omega arith) (low, h refl, (e, failed refl refl refl ran retried))

      over_budget-limited :
          (delay : ℤ) (w : W)
          → (over_budget world p start delay w).0 ≡ true
          → ltb_ℤ (pos 0) p.total_budget ≡ true
      unfolding over_budget
      over_budget-limited delay w h = ground arith

      calls-over_budget :
          (delay : ℤ) (w : W) → calls (over_budget world p start delay w).1 ≡ calls w
      unfolding over_budget
      calls-over_budget delay w = ground (arith, counts.now_keeps w)

      Sound-moves :
          (w w' : W) (r : Outcome T × W) → calls w ≡ calls w' → Sound p k w r → Sound p k w' r
      Sound-moves w w' r h s = record {
        tally = omega (arith, s.tally);
        low = s.low;
        high = s.high;
        explained = s.explained;
      }

      after_budget-Sound :
          (delay : ℤ) (b : Bool × W)
          → (b.0 ≡ true → ltb_ℤ (pos 0) p.total_budget ≡ true)
          → Sound p k b.1 (after_budget world start k v e delay b next)
      unfolding after_budget finish CtxDone
      after_budget-Sound delay (true, w) h =
          finish-Sound _ _ _ w (omega arith)
            (low, h refl, (e, refl, failed refl refl refl ran retried))
      after_budget-Sound delay (false, w) h =
          Sound-moves _ _ _ (counts.wait_keeps delay w)
            (after_wait-Sound (world.wait delay w) (λ b. (delay, w, b, refl)))

      pause-Sound : (w : W) → Sound p k w (pause world p start k v e w next)
      unfolding pause
      pause-Sound w =
          let d : ℤ × W = next_delay world.random p k w in
          Sound-moves _ _ _
            (calls-over_budget d.0 d.1
              ∙ next_delay_keeps world.random p k calls counts.random_keeps w)
            (after_budget-Sound d.0 (over_budget world p start d.0 d.1)
              (over_budget-limited d.0 d.1))

  after_attempt-Sound :
      (p : Policy) (start : ℤ) (k : ℕ) (v : T) (e : Option Failure) (w : W)
      (next : W → Outcome T × W)
      → Ran world k v e
      → k ≤ p.max_attempts
      → (k < p.max_attempts → (w : W) → Sound p k w (next w))
      → Sound p k w (after_attempt world p start k v e w next)
  unfolding after_attempt finish
  after_attempt-Sound p start k v none w next ran h go_on =
      finish-Sound p start k v none none succeeded w h (ran, refl, refl)
  after_attempt-Sound p start k v (some e) w next ran h go_on =
      elim (Bool-cases (in_retry_on (some p) (world.classify e))) [
        | inl retried ↦ rw retried (elim (Bool-cases (eqb k p.max_attempts)) [
          | inl last ↦ rw last (last_attempt retried (ground arith))
          | inr more ↦
              rw more
                (pause-Sound p start k v e next (ground arith) ran retried (go_on (ground arith)) w)
        ])
        | inr stop ↦ rw stop (
            finish-Sound p start k v _ _ _ w h
              (e, refl, failed p start k v refl refl refl ran stop))
      ]
    where
      last_attempt :
          in_retry_on (some p) (world.classify e) ≡ true
          → k ≡ p.max_attempts
          → Sound p k w (
              finish world start v
                (some e)
                p.max_attempts
                (some (world.classify e))
                exhausted_retries
                w)
      last_attempt retried same =
          subst
            (λ n.
              Sound p k w
                (finish world start v (some e) n (some (world.classify e)) exhausted_retries w))
            same
            (finish-Sound p start k v _ _ _ w h
              (same, (e, refl, failed p start k v refl refl refl ran retried)))

  Sound-step :
      (p : Policy) (k : ℕ) (t : Option ℤ) (w : W) (r : Outcome T × W)
      → Sound p (k + 1) (world.op t (k + 1) w).2 r
      → Sound p k w r
  Sound-step p k t w r s = record {
    tally = omega (arith, s.tally, counts.op_counts t (k + 1) w);
    low = omega (arith, s.low);
    high = s.high;
    explained = s.explained;
  }

  -- After k runs, the loop with at least one round left.
  attempts_from-Sound :
      (p : Policy) (start : ℤ) (rounds k : ℕ) (w : W)
      → k + suc rounds ≡ p.max_attempts
      → Sound p
          (k + 1)
          (world.op (attempt_timeout world p) (k + 1) w).2
          (attempts_from world p start (suc rounds) (k + 1) w)
  unfolding attempts_from Ran
  attempts_from-Sound p start zero k w h =
      let (v, e, w') = world.op (attempt_timeout world p) (k + 1) w in
      after_attempt-Sound p start (k + 1) v e w' _ (_, w, refl, refl) (omega arith)
        (λ low _. absurd (omega arith))
  attempts_from-Sound p start (suc rounds) k w h =
      let (v, e, w') = world.op (attempt_timeout world p) (k + 1) w in
      after_attempt-Sound p start (k + 1) v e w' _ (_, w, refl, refl) (omega arith)
        λ low w''.
          Sound-step p (k + 1) _ w'' _
            (attempts_from-Sound p start rounds (k + 1) w'' (omega arith))

  started-Sound :
      (p : Policy) (start : ℤ) (w : W) (n : ℕ)
      → suc n ≡ p.max_attempts
      → Sound p 1
          (world.op (attempt_timeout world p) 1 w).2
          (attempts_from world p start p.max_attempts 1 w)
  started-Sound p start w n h =
      subst
        (λ m.
          Sound p 1 (world.op (attempt_timeout world p) 1 w).2 (attempts_from world p start m 1 w))
        h (attempts_from-Sound p start n 0 w (omega (arith, h)))

  -- A policy that retries runs the operation once, and then goes on from that state.
  retrying-Sound :
      (p : Policy) (w : W)
      → 1 < p.max_attempts
      → (w' : W) × (calls w' ≡ suc (calls w)) × Sound p 1 w' (do_retry world (some p) w)
  unfolding do_retry
  retrying-Sound p w h =
      let (start, w') = world.now w in
      let (seed, w'') = world.now w' in
      (
        (world.op (attempt_timeout world p) 1 w'').2,
        omega (
          arith,
          counts.op_counts (attempt_timeout world p) 1 w'',
          counts.now_keeps w',
          counts.now_keeps w,
        ),
        rw (not_single p h) (started-Sound p start w'' (p.max_attempts - 1) (omega arith)),
      )

  calls-run_once :
      (start : ℤ) (w : W)
      → calls (run_once world start w).1 ≡ calls w + (run_once world start w).0.attempts
  unfolding run_once finish
  calls-run_once start w =
      ground (arith, counts.op_counts none 1 w, counts.now_keeps (world.op none 1 w).2)

  calls-retrying :
      (p : Policy) (w : W)
      → 1 < p.max_attempts
      → calls (do_retry world (some p) w).1 ≡ calls w + (do_retry world (some p) w).0.attempts
  calls-retrying p w h = let (w', c, s) = retrying-Sound p w h in omega (arith, c, s.tally)

  calls-single :
      (p : Policy) (w : W)
      → leb p.max_attempts 1 ≡ true
      → calls (do_retry world (some p) w).1 ≡ calls w + (do_retry world (some p) w).0.attempts
  unfolding do_retry
  calls-single p w one =
      rw one (omega (arith, calls-run_once (world.now w).0 (world.now w).1, counts.now_keeps w))

  -- With a counter that the operation alone moves, by one, the reported number of attempts is the
  -- number of times that the operation ran.
  pub calls-do_retry :
      (p : Option Policy) (w : W)
      → calls (do_retry world p w).1 ≡ calls w + (do_retry world p w).0.attempts
  unfolding do_retry
  calls-do_retry none w =
      omega (arith, calls-run_once (world.now w).0 (world.now w).1, counts.now_keeps w)
  calls-do_retry (some p) w = elim (Bool-cases (leb p.max_attempts 1)) [
    | inl one ↦ calls-single p w one
    | inr more ↦ calls-retrying p w (ground arith)
  ]

  -- Under a policy with more than one attempt the operation, counted by a counter that it alone
  -- moves, runs exactly as often as is reported, at least once and at most `max_attempts` times, and
  -- the decision tells the truth. What is reported of the last attempt is what the operation gives,
  -- in some state, as the attempt of that number: after a success its value and no error, and
  -- otherwise its error, with the class of that error. A run that is exhausted made all its attempts,
  -- and its error is to be retried; so is that of a run whose budget expired, which was set, after
  -- fewer attempts; that of a run that is not retryable is not. A cancelled run ended after fewer
  -- attempts on an error to be retried, and reports the context's error in place of it.
  pub do_retry-Explains :
      (p : Policy) (w : W)
      → 1 < p.max_attempts
      → let r = do_retry world (some p) w in
        (calls r.1 ≡ calls w + r.0.attempts)
        × (1 ≤ r.0.attempts)
        × (r.0.attempts ≤ p.max_attempts)
        × Explains world p r.0 r.0.decision
  do_retry-Explains p w h =
      let (w', c, s) = retrying-Sound p w h in (calls-retrying p w h, s.low, s.high, s.explained)
