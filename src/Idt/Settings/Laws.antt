-- ===== src/Idt/Settings/Laws.antt =====
-- What holds of every validator that the environment gives.
use ai_agent_go_service.Prelude.{
  ◌*◌, ◌≤◌, ◌≡◌, refl, subst, String, ◌==◌, Bool, true, false, not, ◌&&◌, ◌||◌, [], Option, some,
  none, Bool-cases, inl, inr, arith, ok,
}
use ai_agent_go_service.Prelude.Int.{ℤ, pos, negsuc}
use ai_agent_go_service.Loader.Load.Built.{ok_inj}
use ai_agent_go_service.Idt.Validator.{Validator}
use ai_agent_go_service.Idt.Settings.{
  Environment, SettingsError, second, max_cache_seconds, capped, flag, cache_ttl_from_env, disabled,
  configured, new_from_env,
}

capped-le : (o : Option ℤ) → capped o ≤ max_cache_seconds * second
unfolding capped
capped-le none = omega arith
capped-le (some (negsuc n)) = omega arith
capped-le (some (pos n)) = ground arith

module _ (env : Environment) where
  cache_ttl_from_env-le : (raw : String) → cache_ttl_from_env env raw ≤ max_cache_seconds * second
  unfolding cache_ttl_from_env
  cache_ttl_from_env-le raw = ground (arith, capped-le (env.atoi (env.trim raw)))

  -- It checks tokens exactly if the environment asks for it and there is a connection.
  pub data Configures (connected : Bool) (v : Validator) : Type 0 where
    off :
        (flag env "IDT_VALIDATION" && connected) ≡ false
        → v.enabled ≡ false
        → Configures connected v
    on :
        (flag env "IDT_VALIDATION" && connected) ≡ true
        → v.enabled ≡ true
        → (v.agent_id == "") ≡ false
        → (v.function_id == "") ≡ false
        → v.cache_ttl ≤ max_cache_seconds * second
        → v.cache ≡ []
        → Configures connected v

  disabled-enabled : (disabled env).enabled ≡ false
  unfolding disabled
  disabled-enabled = refl

  configured-enabled : (configured env).enabled ≡ true
  unfolding configured
  configured-enabled = refl

  configured-empty : (configured env).cache ≡ []
  unfolding configured
  configured-empty = refl

  configured-le : (configured env).cache_ttl ≤ max_cache_seconds * second
  unfolding configured
  configured-le = cache_ttl_from_env-le (env.get_env "IDT_VALIDATE_CACHE_SECONDS")

  -- Unless it fails for want of an agent or a function, the environment gives a validator that
  -- checks tokens exactly if it asks for that and there is a connection. One that checks has an
  -- agent and a function, remembers nothing yet, and remembers an allow for an hour at most.
  pub new_from_env-Configures :
      (connected : Bool) (v : Validator)
      → new_from_env env connected ≡ ok v
      → Configures connected v
  unfolding new_from_env
  new_from_env-Configures connected v h =
      elim (Bool-cases (not (flag env "IDT_VALIDATION") || not connected)) [
        | inl t ↦
            subst (Configures connected)
              (ok_inj {X = SettingsError} (disabled env) v (ground (arith, t, h)))
              (off (ground (arith, t)) disabled-enabled)
        | inr t ↦
            elim (Bool-cases
              ((configured env).agent_id == "" || (configured env).function_id == "")) [
                | inl u ↦ absurd (ground (arith, t, u, h))
                | inr u ↦
                    subst (Configures connected)
                      (ok_inj {X = SettingsError} (configured env) v (ground (arith, t, u, h)))
                      (on (ground (arith, t)) configured-enabled (ground (arith, u))
                        (ground (arith, u)) (configured-le) configured-empty)
              ]
      ]
