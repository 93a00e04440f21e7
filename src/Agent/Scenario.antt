-- ===== src/Agent/Scenario.antt =====
-- A small world for the tests of the agent: the model asks for a tool, and then answers.
use ai_agent_go_service.Prelude.{ℕ, zero, suc, true, false, [], ◌∷◌, some, none, ok}
use ai_agent_go_service.Prelude.Int.{pos}
use ai_agent_go_service.Retry.Types.{upstream, plain}
use ai_agent_go_service.Agent.Types.{
  text, user, Message, LlmToolUse, LlmEvent, text_delta, tool_use_stop, message_stop,
}
use ai_agent_go_service.Agent.Stream.{Signals, stream_closed, llm_event}
use ai_agent_go_service.Agent.Charts.{Patterns, between}
use ai_agent_go_service.Agent.Run.{Settings, Outside}

abbrev pub patterns : Patterns
patterns = record {
  find_keys = λ s. [];
  find_urls = λ s. [];
  split_images = λ s. between s ∷ [];
  has_backslash = λ s. false;
  unmarshal_text = λ s. none;
  trim = λ s. s;
}

abbrev pub weather : LlmToolUse
weather = record { id = "t1"; name = "weather"; input = "{}" }

-- The number counts the calls of the model.
abbrev pub answer_to : ℕ → Signals LlmEvent
answer_to zero =
    llm_event (tool_use_stop weather) (llm_event (message_stop "tool_use") (stream_closed none))
answer_to (suc n) =
    llm_event (text_delta "sunny") (llm_event (message_stop "end_turn") (stream_closed none))

abbrev pub outside : Outside ℕ
outside = record {
  now = λ w. (pos 0, w);
  random = λ w. (4503599627370496, w);
  wait = λ d w. (true, w);
  ctx_error = λ w. plain "done";
  classify = λ e. upstream;
  ctx_done = λ w. (none, w);
  load_history = λ w. (ok [], w);
  render = λ w. (ok "prompt", w);
  stream = λ timeout k msgs w. (answer_to w, suc w);
  error_sent = λ w. (true, w);
  invoke = λ timeout k name input w. ("", some (plain "no station"), [], w);
  await_client = λ id timeout w. (ok "yes", w);
  is_skipped = λ out. false;
  close_error = λ ev w. (none, w);
  append_memory = λ turn w. (none, w);
  patterns = patterns;
  trim = λ s. s;
  split_after_lines = λ s. s ∷ [];
  ends_in_line_break = λ s. false;
  first_runes = λ n s. none;
  itoa = λ n. "0";
}

abbrev pub settings : Settings
settings = record {
  max_iterations = 5;
  max_empty_answer_retries = 3;
  max_tool_retries = 3;
  surface_thoughts = false;
  human_response_timeout_seconds = pos 0;
  tools =
      record { name = "weather"; retry_policy = none; client_only = false; terminates = false }
      ∷ [];
  llm_policy = none;
  has_memory = true;
}

abbrev pub hello : Message
hello = record { role = user; content = text "hello" ∷ [] }
