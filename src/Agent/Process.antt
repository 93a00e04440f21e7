-- ===== src/Agent/Process.antt =====
-- Process of loop.go: one turn of the agent, from the history in memory to the closed stream.
pub mod Laws
pub mod Ended
pub mod Whole
pub mod Requests
pub mod Examples
use ai_agent_go_service.Prelude.{
  ℕ, zero, suc, ◌+◌, String, ◌==◌, Bool, true, false, not, ◌&&◌, ◌||◌, elem, List, [], ◌∷◌, ◌++◌,
  Option, some, none, ltb, eqb, length, if◌then◌else◌, Result, ok, err,
}
use ai_agent_go_service.Retry.Types.{Failure}
use ai_agent_go_service.Retry.Classify.{is_deadline, is_canceled}
use ai_agent_go_service.Engine.Executor.{Attachment}
use ai_agent_go_service.Agent.Types.{
  ContentBlock, text, tool_result, output, user, assistant, Message, Cause, caused, max_iterations,
  no_tool_results, StreamEvent, complete, stream_error, Turn,
}
use ai_agent_go_service.Agent.Messages.{
  is_empty, text_only_message, message_for_memory, last_text, message_stop_of, user_blocks,
}
use ai_agent_go_service.Agent.Charts.{
  ChartRef, chart_keys_of, missing_chart_keys, extract_chart_keys, extract_chart_refs,
  correct_chart_refs, append_missing_charts,
}
use ai_agent_go_service.Agent.Run.{closed, stored, Run, act, Settings, Outside}
use ai_agent_go_service.Agent.Reply.{Reply, receive}
use ai_agent_go_service.Agent.Tools.{Counts, Results, halted_by, results, run_calls}
use ai_agent_go_service.Agent.Ending.{
  Loop, Next, ended, again, error_code, fail_stream, add_charts, end_turn,
}

module _ {W : Type 0} (outside : Outside W) (settings : Settings) where
  open outside use {ctx_done, load_history, render}

  module _ (user_msg : Message) where
    after_results : Loop → Message → Results W → Next W
    unfolding fail_stream add_charts
    after_results l answer (halted_by e r) =
        let (c, r') = fail_stream outside settings "tool-error" (caused e) r in ended c r'
    after_results l answer (results counts [] r) =
        let (c, r') = fail_stream outside settings "llm-error" no_tool_results r in ended c r'
    after_results l answer (results counts (b ∷ bs) r) =
        again
          (record {
            msgs = l.msgs ++ answer ∷ record { role = user; content = b ∷ bs } ∷ [];
            empty_answer_retries = l.empty_answer_retries;
            tool_error_counts = counts;
            produced_charts = add_charts outside settings l.produced_charts (b ∷ bs);
            chart_recall_forced = l.chart_recall_forced;
            forced_recall_active = l.forced_recall_active;
            preserved_answer = l.preserved_answer;
          })
          r

    after_reply : Loop → Reply → Option Failure → Run W → Next W
    unfolding fail_stream end_turn after_results
    after_reply l reply (some e) r =
        let (c, r') = fail_stream outside settings (error_code e) (caused e) r in ended c r'
    after_reply l reply none r =
        let answer : Message = record { role = assistant; content = reply.blocks } in
        if reply.stop == "end_turn" || is_empty reply.calls
        then end_turn outside settings user_msg l answer reply.stop r
        else after_results l answer
            (run_calls outside settings l.forced_recall_active reply.calls l.tool_error_counts r)

    unless_done : Option Failure × W → Loop → Run W → Next W
    unfolding fail_stream after_reply
    unless_done (some e, w) l r =
        let (c, r') =
          fail_stream outside settings "cancelled" (caused e)
            (record { world = w; trace = r.trace }) in
        ended c r'
    unless_done (none, w) l r =
        let (reply, e, r') =
          receive outside settings l.forced_recall_active l.msgs
            (record { world = w; trace = r.trace }) in
        after_reply l reply e r'

    -- One iteration.
    unfoldable pub iterate : Loop → Run W → Next W
    unfolding unless_done
    iterate l r = unless_done (ctx_done r.world) l r

    -- The iterations that are left.
    unfoldable pub iterate_from : ℕ → Loop → Run W → Option Cause × Run W
    unfolding fail_stream iterate
    iterate_from zero l r =
        fail_stream outside settings "max-iterations" (max_iterations settings.max_iterations) r
    iterate_from (suc n) l r = elim (iterate l r) [
      | ended c r' ↦ (c, r')
      | again l' r' ↦ iterate_from n l' r'
    ]

  abbrev start_loop : List Message → Loop
  start_loop msgs = record {
    msgs = msgs;
    empty_answer_retries = 0;
    tool_error_counts = λ name. 0;
    produced_charts = [];
    chart_recall_forced = false;
    forced_recall_active = false;
    preserved_answer = "";
  }

  with_prompt : List Message → Message → Result Failure String × W → Run W → Option Cause × Run W
  unfolding fail_stream
  with_prompt history user_msg (err e, w) r =
      fail_stream outside settings "render-error" (caused e) (record { world = w; trace = r.trace })
  with_prompt history user_msg (ok sys, w) r =
      iterate_from user_msg settings.max_iterations (start_loop (history ++ user_msg ∷ []))
        (record { world = w; trace = r.trace })

  with_history : Message → Result Failure (List Message) × W → Run W → Option Cause × Run W
  unfolding fail_stream with_prompt
  with_history user_msg (err e, w) r =
      fail_stream outside settings "memory-load-error" (caused e)
        (record { world = w; trace = r.trace })
  with_history user_msg (ok history, w) r =
      with_prompt history user_msg (render w) (record { world = w; trace = r.trace })

  -- Without memory the history is empty.
  loaded : Bool → Message → Run W → Option Cause × Run W
  unfolding with_history
  loaded true user_msg r = with_history user_msg (load_history r.world) r
  loaded false user_msg r = with_history user_msg (ok [], r.world) r

  -- The whole turn.
  unfoldable pub process : List Attachment → String → Run W → Option Cause × Run W
  unfolding loaded
  process attachments message r =
      loaded settings.has_memory (record { role = user; content = user_blocks attachments message })
        r
