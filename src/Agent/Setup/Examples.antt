-- ===== src/Agent/Setup/Examples.antt =====
-- An agent with the default limits.
use ai_agent_go_service.Prelude.{◌≡◌, refl, false, none, ok}
use ai_agent_go_service.Prelude.Int.{pos}
use ai_agent_go_service.Agent.Setup.{
  Environment, Config, Agent, resolve_max_empty_answer_retries, resolve_max_tool_retries, new_agent,
}
use ai_agent_go_service.Agent.Setup.Laws.{Limits, new_agent-Limits}

abbrev environment : Environment
environment = record { getenv = λ key. "nine"; trim_space = λ s. s; atoi = λ s. none }

abbrev config : Config
config = record {
  max_iterations = pos 0;
  system_message_fixed = "";
  system_message_flexible = "Known facts.";
  system_message = "Be brief.";
  surface_thoughts = false;
  human_response_timeout_seconds = pos 60;
}

abbrev agent : Agent
agent = record {
  cfg = record {
    max_iterations = pos 15;
    system_message_fixed = "Be brief.";
    system_message_flexible = "Known facts.";
    system_message = "Be brief.";
    surface_thoughts = false;
    human_response_timeout_seconds = pos 60;
  };
  max_empty_answer_retries = pos 3;
  max_tool_retries = pos 3;
  merged = "Known facts.\n\nBe brief.";
}

built_so : new_agent environment config ≡ ok agent
unfolding new_agent resolve_max_empty_answer_retries resolve_max_tool_retries
built_so = refl

new_agent-Limits_example : Limits agent
new_agent-Limits_example = new_agent-Limits environment config agent built_so
