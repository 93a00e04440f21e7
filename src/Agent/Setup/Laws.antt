-- ===== src/Agent/Setup/Laws.antt =====
-- The limits of an agent that was built, and the peers that it takes.
use ai_agent_go_service.Prelude.{
  ℕ, ◌≤◌, ◌≡◌, subst, inl, inr, true, false, ◌||◌, String, ◌==◌, ok, arith, Bool-cases,
  Option-cases,
}
use ai_agent_go_service.Prelude.Int.{ℤ, pos, ltb_ℤ, ◌≤ℤ◌}
use ai_agent_go_service.Agent.Setup.{
  Environment, Config, Agent, env_int_clamped, clamped, resolve_max_empty_answer_retries,
  resolve_max_tool_retries, set_flex, with_legacy, with_default, built, checked, new_agent,
}

abbrev pub Within : ℤ → ℤ → ℤ → Type 0
Within low high n = (low ≤ℤ n) × (n ≤ℤ high)

clamped-Within : (n : ℤ) (max : ℕ) → Within (pos 0) (pos max) (clamped n (pos max))
unfolding clamped
clamped-Within n max = (ground arith, ground arith)

-- The limits that hold of every agent.
pub record Limits (a : Agent) : Type 0 where
  pub iterations : Within (pos 1) (pos 50) a.cfg.max_iterations
  pub empty_answers : Within (pos 0) (pos 5) a.max_empty_answer_retries
  pub tool_errors : Within (pos 0) (pos 10) a.max_tool_retries
  pub fixed_message : (a.cfg.system_message_fixed == "") ≡ false

module _ (environment : Environment) where
  env_int_clamped-Within :
      (key : String) (def max : ℕ)
      → def ≤ max
      → Within (pos 0) (pos max) (env_int_clamped environment key (pos def) (pos max))
  unfolding env_int_clamped
  env_int_clamped-Within key def max h =
      elim (Bool-cases (environment.trim_space (environment.getenv key) == "")) [
        | inl t ↦ rw t (omega arith, omega (arith, h))
        | inr f ↦
            rw f
              (elim (Option-cases
                (environment.atoi (environment.trim_space (environment.getenv key)))) [
                  | inl n ↦ rw n (omega arith, omega (arith, h))
                  | inr (n, s) ↦ rw s (clamped-Within n max)
                ])
      ]

  built-Limits :
      (c : Config)
      → Within (pos 1) (pos 50) c.max_iterations
      → (c.system_message_fixed == "") ≡ false
      → Limits (built environment c)
  unfolding built set_flex resolve_max_empty_answer_retries resolve_max_tool_retries
  built-Limits c h k = record {
    iterations = h;
    empty_answers = env_int_clamped-Within "AICHAT_MAX_EMPTY_ANSWER_RETRIES" 3 5 (omega arith);
    tool_errors = env_int_clamped-Within "AICHAT_MAX_TOOL_RETRIES" 3 10 (omega arith);
    fixed_message = k;
  }

  checked-Limits :
      (c : Config) (a : Agent)
      → (c.system_message_fixed == "") ≡ false
      → checked environment c ≡ ok a
      → Limits a
  unfolding checked
  checked-Limits c a k h =
      elim (Bool-cases (ltb_ℤ c.max_iterations (pos 1) || ltb_ℤ (pos 50) c.max_iterations)) [
        | inl t ↦ absurd (refused t)
        | inr f ↦
            subst (λ x. Limits x) (same f) (built-Limits c (ground (arith, f), ground (arith, f)) k)
      ]
    where
      refused : (ltb_ℤ c.max_iterations (pos 1) || ltb_ℤ (pos 50) c.max_iterations) ≡ true → ⊥
      refused t = absurd (ground (arith, h, t))

      same :
          (ltb_ℤ c.max_iterations (pos 1) || ltb_ℤ (pos 50) c.max_iterations) ≡ false
          → built environment c ≡ a
      same f = ground (arith, h, f)

  -- An agent that the factory builds keeps its limits in range whatever the configuration and the
  -- environment say: its maximal number of iterations is at least one and at most 50, that of repeated
  -- requests for an empty answer at most five, that of a tool's errors before it is refused at most
  -- ten, and none is negative. Its fixed prompt is not empty.
  pub new_agent-Limits : (c : Config) (a : Agent) → new_agent environment c ≡ ok a → Limits a
  unfolding new_agent with_default
  new_agent-Limits c a h = elim (Bool-cases ((with_legacy c).system_message_fixed == "")) [
    | inl t ↦ absurd (refused t)
    | inr f ↦ checked-Limits (with_default (with_legacy c)) a f (accepted f)
  ]
    where
      refused : ((with_legacy c).system_message_fixed == "") ≡ true → ⊥
      refused t = absurd (ground (arith, h, t))

      accepted :
          ((with_legacy c).system_message_fixed == "") ≡ false
          → checked environment (with_default (with_legacy c)) ≡ ok a
      accepted f = ground (arith, h, f)
