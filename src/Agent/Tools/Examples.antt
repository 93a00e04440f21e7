-- ===== src/Agent/Tools/Examples.antt =====
-- A tool turn with a known and an unknown tool, and one of a tool that failed too often.
use ai_agent_go_service.Prelude.{ℕ, ◌≡◌, false, ◌==◌, List, [], ◌∷◌, arith, if◌then◌else◌}
use ai_agent_go_service.Agent.Types.{LlmToolUse}
use ai_agent_go_service.Agent.Run.{Run}
use ai_agent_go_service.Agent.Tools.{Counts, run_calls}
use ai_agent_go_service.Agent.Tools.Laws.{results_run}
use ai_agent_go_service.Agent.Tools.Answers.{AnswersWell, run_calls-AnswersWell}
use ai_agent_go_service.Agent.Tools.Refused.{calls_to, run_calls-refused}
use ai_agent_go_service.Agent.Scenario.{outside, settings, weather}

abbrev start : Run ℕ
start = record { world = 0; trace = [] }

abbrev calls : List LlmToolUse
calls = weather ∷ record { id = "t2"; name = "charts"; input = "{}" } ∷ []

abbrev no_errors : Counts
no_errors = λ name. 0

abbrev four_errors : Counts
four_errors = λ name. if name == "weather" then 4 else 0

run_calls-AnswersWell_example :
    AnswersWell outside settings false calls no_errors
      (run_calls outside settings false calls no_errors start)
run_calls-AnswersWell_example =
    run_calls-AnswersWell outside settings false calls no_errors start (λ name. omega arith)

run_calls-refused_example :
    calls_to "weather"
      (results_run (run_calls outside settings false calls four_errors start)).trace
    ≡ 0
run_calls-refused_example =
    run_calls-refused outside settings false "weather" calls four_errors start (omega arith)
