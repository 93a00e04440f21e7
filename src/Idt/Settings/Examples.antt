-- ===== src/Idt/Settings/Examples.antt =====
-- An environment that asks for the check of tokens, with a cache of two hours.
use ai_agent_go_service.Prelude.{
  ◌≡◌, refl, String, ◌==◌, true, false, [], some, none, if◌then◌else◌, ok, err,
}
use ai_agent_go_service.Prelude.Int.{pos}
use ai_agent_go_service.Idt.Validator.{Validator}
use ai_agent_go_service.Idt.Settings.{
  Environment, identifiers_required, cache_ttl_from_env, new_from_env,
}
use ai_agent_go_service.Idt.Settings.Laws.{Configures, new_from_env-Configures}

abbrev environment : String → Environment
environment function = record {
  get_env = λ name.
      if name == "IDT_VALIDATION"
      then "true"
      else if name == "APP_FUNCTION_ID"
      then function
      else if name == "IDT_VALIDATE_CACHE_SECONDS"
      then "7200"
      else if name == "APP_ID"
      then "agent"
      else "";
  trim = λ s. s;
  is_true = λ s. s == "true";
  atoi = λ s. some (pos 7200);
  scan = λ s. none;
}

abbrev checking : Validator
checking = record {
  enabled = true;
  fail_open = false;
  observe_only = false;
  subject = "example.auth.validateToken";
  agent_id = "agent";
  function_id = "fn";
  request_timeout = pos 5000000000;
  cache_ttl = 3600000000000;
  cache = [];
}

gives_checking : new_from_env (environment "fn") true ≡ ok checking
unfolding new_from_env cache_ttl_from_env
gives_checking = refl

new_from_env-Configures_example : Configures (environment "fn") true checking
new_from_env-Configures_example =
    new_from_env-Configures (environment "fn") true checking gives_checking

wants_function : new_from_env (environment "") true ≡ err (identifiers_required "agent" "")
unfolding new_from_env cache_ttl_from_env
wants_function = refl
