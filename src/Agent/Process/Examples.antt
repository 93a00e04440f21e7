-- ===== src/Agent/Process/Examples.antt =====
-- Turns of the small world.
use ai_agent_go_service.Prelude.{
  ℕ, ◌≡◌, refl, suc, true, false, none, List, [], ◌∷◌, ok, All, arith, Result,
}
use ai_agent_go_service.Retry.Types.{Failure, canceled}
use ai_agent_go_service.Agent.Types.{Message, text_delta, delta, complete}
use ai_agent_go_service.Agent.Stream.{stream_attempt, llm_event, context_done}
use ai_agent_go_service.Retry.Loop.{do_retry}
use ai_agent_go_service.Agent.Reply.{receive, ask_model, model_world, hear_all}
use ai_agent_go_service.Agent.Run.{asked, sent, closed, stored, Run, Outside}
use ai_agent_go_service.Agent.Messages.{
  last_text, append_or_extend_text, message_stop_of, user_blocks,
}
use ai_agent_go_service.Agent.Charts.{
  missing_chart_keys, extract_chart_keys, distinct_from, append_missing_charts, correct_chart_refs,
  correct_image,
}
use ai_agent_go_service.Agent.Ending.{wants_recall, Loop, turn_of, assistant_text}
use ai_agent_go_service.Agent.Process.{iterate, iterate_from, process}
use ai_agent_go_service.Agent.Process.Ended.{Ended, NextKeeps}
use ai_agent_go_service.Agent.Process.Whole.{user_message}
use ai_agent_go_service.Agent.Process.Laws.{Live, sent_in, process-Ended, iterate-silent}
use ai_agent_go_service.Agent.Process.Requests.{Asks, HasContent, process-Asks}
use ai_agent_go_service.Agent.Scenario.{outside, settings, hello}

abbrev start : Run ℕ
start = record { world = 0; trace = [] }

process-Ended_example :
    let (c, r) = process outside settings [] "hello" start in
    Ended outside.itoa (user_message [] "hello") Live c r.trace
process-Ended_example = process-Ended outside settings [] "hello" 0

nothing :
    (history : List Message)
    → Path (Result Failure (List Message)) (ok []) (ok history)
    → All HasContent history
nothing [] e = tt
nothing (m ∷ ms) e = absurd (ground (arith, e))

process-Asks_example :
    let (c, r) = process outside settings [] "hello" start in
    Ended outside.itoa (user_message [] "hello") Asks c r.trace
process-Asks_example =
    process-Asks outside settings [] "hello" 0 refl (λ w history e. nothing history e)

-- A loop that recalls a chart.
abbrev recalling : Loop
recalling = record {
  msgs = hello ∷ [];
  empty_answer_retries = 0;
  tool_error_counts = λ name. 0;
  produced_charts = [];
  chart_recall_forced = true;
  forced_recall_active = true;
  preserved_answer = "the chart";
}

iterate-silent_example :
    NextKeeps outside settings
      (λ t. sent_in t ≡ [])
      hello
      (iterate outside settings hello recalling start)
iterate-silent_example = iterate-silent outside settings hello recalling start refl

-- The client cancels in the middle of an answer, and the select after the attempts sees that the
-- context is done.
abbrev interrupted : Outside ℕ
interrupted = record outside {
  stream = λ timeout k msgs w. (llm_event (text_delta "sun") (context_done canceled), suc w);
  error_sent = λ w. (false, w);
}

partial_answer_completes :
    let (c, r) = process interrupted settings [] "hello" start in
    (c ≡ none)
    × (r.trace
        ≡ closed (complete "sun" "end_turn")
          ∷ stored (turn_of outside.itoa (user_message [] "hello") (assistant_text "sun"))
          ∷ sent (delta "sun")
          ∷ asked (hello ∷ [])
          ∷ [])
unfolding process iterate_from iterate receive ask_model do_retry model_world hear_all
    stream_attempt last_text append_or_extend_text wants_recall missing_chart_keys
    extract_chart_keys distinct_from append_missing_charts message_stop_of user_blocks
    correct_chart_refs correct_image
partial_answer_completes = (refl, refl)
