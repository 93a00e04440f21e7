-- ===== src/Agent/Ending.antt =====
-- The end of a turn in loop.go: memory, the closed stream, and the answer that the turn ends with.
use ai_agent_go_service.Prelude.{
  ℕ, ◌+◌, String, ◌==◌, Bool, true, false, not, ◌&&◌, elem, List, [], ◌∷◌, ◌++◌, Option, some, none,
  ltb, eqb, length, if◌then◌else◌,
}
use ai_agent_go_service.Retry.Types.{Failure}
use ai_agent_go_service.Retry.Classify.{is_deadline, is_canceled}
use ai_agent_go_service.Agent.Types.{
  ContentBlock, text, tool_result, output, user, assistant, Message, Cause, caused, complete,
  stream_error, Turn,
}
use ai_agent_go_service.Agent.Messages.{
  text_only_message, message_for_memory, last_text, message_stop_of,
}
use ai_agent_go_service.Agent.Charts.{
  ChartRef, chart_keys_of, missing_chart_keys, extract_chart_keys, extract_chart_refs,
  correct_chart_refs, append_missing_charts,
}
use ai_agent_go_service.Agent.Run.{closed, stored, Run, act, Settings, Outside}
use ai_agent_go_service.Agent.Tools.{Counts}

-- The variables that live through the iterations.
pub record Loop : Type 0 where
  pub msgs : List Message
  pub empty_answer_retries : ℕ
  pub tool_error_counts : Counts
  pub produced_charts : List ChartRef
  pub chart_recall_forced : Bool
  pub forced_recall_active : Bool
  pub preserved_answer : String

-- An iteration ends the turn, or goes on to the next one.
pub data Next (W : Type 0) : Type 0 where
  ended : Option Cause → Run W → Next W
  again : Loop → Run W → Next W

abbrev pub user_text : String → Message
user_text s = record { role = user; content = text s ∷ [] }

abbrev pub assistant_text : String → Message
assistant_text s = record { role = assistant; content = text s ∷ [] }

abbrev empty_answer_nudge : Message
empty_answer_nudge = user_text (
    "You ended your turn without writing any answer for the user. If a tool failed, either correct the tool input and call it again, or use the data you already have to answer in plain text. You must always provide a final written answer - never end your turn silently.")

abbrev chart_recall_nudge : Message
chart_recall_nudge = user_text (
    "Your last answer references a chart image, but you did not call the QuickChart tool this turn, so no chart was actually generated. Call QuickChart now to generate exactly that chart. Do not rewrite or resend your answer — just call the tool. Do not invent, guess, modify, or reuse a chart URL.")

-- The answer that stands before the nudge is never without content.
unfoldable pub no_answer : List ContentBlock → List ContentBlock
no_answer [] = text "(no answer)" ∷ []
no_answer (b ∷ bs) = b ∷ bs

-- What memory keeps of a turn.
abbrev pub turn_of : (ℕ → String) → Message → Message → Turn
turn_of itoa user_msg final = record {
  asked = message_for_memory itoa user_msg;
  answer = text_only_message final;
}

unfoldable pub calm : Loop → Loop
calm l = record l { forced_recall_active = false }

unfoldable pub with_msgs : Loop → List Message → Loop
with_msgs l msgs = record l { msgs = msgs }

unfoldable pub error_code : Failure → String
error_code e =
    if is_deadline e then "timeout" else if is_canceled e then "cancelled" else "llm-error"

module _ {W : Type 0} (outside : Outside W) (settings : Settings) where
  open outside use {
    close_error, ctx_done, load_history, render, append_memory, patterns, trim, itoa,
  }

  unfoldable pub fail_stream : String → Cause → Run W → Option Cause × Run W
  fail_stream code cause r = (some cause, act (closed (stream_error code cause)) r)

  unfoldable pub close_complete : Message → String → Run W → Option Cause × Run W
  close_complete final stop r =
      let ev = complete (last_text final) (message_stop_of stop) in
      let (e, w) = close_error ev r.world in
      (cause_of e, act (closed ev) (record { world = w; trace = r.trace }))
    where
      cause_of : Option Failure → Option Cause
      cause_of (some e) = some (caused e)
      cause_of none = none

  unfoldable pub after_append : Message → String → Option Failure → Run W → Option Cause × Run W
  unfolding fail_stream close_complete
  after_append final stop (some e) r = fail_stream "memory-append-error" (caused e) r
  after_append final stop none r = close_complete final stop r

  unfoldable pub append_turn : Bool → Message → Message → String → Run W → Option Cause × Run W
  unfolding after_append close_complete
  append_turn true user_msg final stop r =
      let turn = turn_of itoa user_msg final in
      let (e, w) = append_memory turn r.world in
      after_append final stop e (act (stored turn) (record { world = w; trace = r.trace }))
  append_turn false user_msg final stop r = close_complete final stop r

  unfoldable pub complete_stream : Message → Message → String → Run W → Option Cause × Run W
  unfolding append_turn
  complete_stream user_msg final stop r = append_turn settings.has_memory user_msg final stop r

  -- The charts that one round of tools rendered.
  add_refs : List ChartRef → List ChartRef → List ChartRef
  add_refs produced [] = produced
  add_refs produced (ref ∷ refs) = elim (elem ref.key (chart_keys_of produced)) [
    | true ↦ add_refs produced refs
    | false ↦ add_refs (produced ++ ref ∷ []) refs
  ]

  -- Only an output of a tool can show a chart; the texts of the loop itself hold none.
  unfoldable pub add_charts : List ChartRef → List ContentBlock → List ChartRef
  unfolding add_refs
  add_charts produced [] = produced
  add_charts produced (tool_result id (output out) false ∷ bs) =
      add_charts (add_refs produced (extract_chart_refs patterns out)) bs
  add_charts produced (b ∷ bs) = add_charts produced bs

  module _ (user_msg : Message) where
    -- The answer with the charts that were rendered, and no others.
    unfoldable pub with_charts : List ChartRef → String → String
    with_charts produced final_text =
        let corrected = correct_chart_refs patterns final_text produced in
        let (extended, appended) = append_missing_charts patterns corrected produced in
        if ltb 0 appended then extended else corrected

    unfoldable pub finish_turn : Loop → Message → String → String → Run W → Next W
    unfolding with_charts complete_stream
    finish_turn l final final_text stop r =
        let corrected = with_charts l.produced_charts final_text in
        let message = if corrected == final_text then final else assistant_text corrected in
        let (e, r') = complete_stream user_msg message stop r in ended e r'

    -- The one recall of a chart: the answer is kept, and the next rounds are not shown.
    unfoldable pub recall : Loop → String → Run W → Next W
    recall l final_text r =
        again
          (record l {
            msgs = l.msgs ++ chart_recall_nudge ∷ [];
            chart_recall_forced = true;
            forced_recall_active = true;
            preserved_answer = final_text;
          })
          r

    -- Exactly one chart is missing, and none was recalled before.
    unfoldable pub wants_recall : Loop → String → Bool
    wants_recall l final_text =
        eqb
          (length (
            missing_chart_keys (extract_chart_keys patterns final_text)
              (chart_keys_of l.produced_charts)))
          1
        && not l.chart_recall_forced

    -- `l.msgs` ends with the model's answer here.
    unfoldable pub settle : Loop → Message → String → String → Run W → Next W
    unfolding finish_turn recall
    settle l final final_text stop r =
        if wants_recall l final_text
        then recall l final_text r
        else finish_turn l final final_text stop r

    -- After a forced recall the answer is the one that the user has read.
    unfoldable pub restore : Bool → Loop → Message → String → Run W → Next W
    unfolding settle calm
    restore true l answer stop r =
        settle (calm l) (assistant_text l.preserved_answer) l.preserved_answer stop r
    restore false l answer stop r = settle l answer (last_text answer) stop r

    unfoldable pub final_answer : Loop → Message → String → Run W → Next W
    unfolding restore
    final_answer l answer stop r = restore l.forced_recall_active l answer stop r

    unfoldable pub ask_again : Loop → Message → Run W → Next W
    unfolding no_answer
    ask_again l answer r =
        again
          (record {
            msgs =
                l.msgs
                ++ record { role = answer.role; content = no_answer answer.content }
                  ∷ empty_answer_nudge
                  ∷ [];
            empty_answer_retries = l.empty_answer_retries + 1;
            tool_error_counts = l.tool_error_counts;
            produced_charts = l.produced_charts;
            chart_recall_forced = l.chart_recall_forced;
            forced_recall_active = l.forced_recall_active;
            preserved_answer = l.preserved_answer;
          })
          r

    -- The model made no more calls: a blank answer is asked for again, while retries are left.
    unfoldable pub end_turn : Loop → Message → String → Run W → Next W
    unfolding ask_again final_answer with_msgs
    end_turn l answer stop r =
        if not l.forced_recall_active
          && (trim (last_text answer) == "")
          && ltb l.empty_answer_retries settings.max_empty_answer_retries
        then ask_again l answer r
        else final_answer (with_msgs l (l.msgs ++ answer ∷ [])) answer stop r
