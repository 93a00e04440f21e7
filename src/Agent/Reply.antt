-- ===== src/Agent/Reply.antt =====
-- One call of the model in loop.go: the attempts behind the channel of events, and the loop that
-- reads them. The attempts run to their end before the loop starts to read.
pub mod Laws
pub mod Blocks
use ai_agent_go_service.Prelude.{
  ℕ, String, ◌==◌, Bool, true, false, not, ◌||◌, List, [], ◌∷◌, ◌++◌, Option, some, none,
  if◌then◌else◌,
}
use ai_agent_go_service.Prelude.Int.{ℤ}
use Prim.Native.String.{◌++◌ as concat}
use ai_agent_go_service.Retry.Types.{Failure, Outcome}
use ai_agent_go_service.Retry.Loop.{World, do_retry}
use ai_agent_go_service.Agent.Types.{
  ContentBlock, tool_use, Message, LlmToolUse, LlmEvent, reasoning_delta, text_delta, tool_use_stop,
  message_stop, other_kind, StreamEvent, thought, delta, tool_call,
}
use ai_agent_go_service.Agent.Stream.{stream_attempt}
use ai_agent_go_service.Agent.Messages.{append_or_extend_text}
use ai_agent_go_service.Agent.Run.{asked, sent, Run, act, Settings, Outside}

-- What the loop over the events collects.
pub record Reply : Type 0 where
  pub blocks : List ContentBlock
  pub stop : String
  pub calls : List LlmToolUse
  pub pending : String

abbrev pub no_reply : Reply
no_reply = record { blocks = []; stop = ""; calls = []; pending = "" }

-- `emit`, with the flag of a forced recall.
abbrev pub emit : {W : Type 0} → Bool → StreamEvent → Run W → Run W
emit true ev r = r
emit false ev r = act (sent ev) r

-- The state of the retry helper: the run, and the events in the channel.
pub record Channel (W : Type 0) : Type 0 where
  pub run : Run W
  pub events : List LlmEvent

-- The retry helper acts on the world alone, but for its operation.
abbrev pub on_world : {W A : Type 0} → A × W → Run W → A × Run W
on_world (a, w) r = (a, record { world = w; trace = r.trace })

abbrev pub on_run : {W A : Type 0} → A × Run W → Channel W → A × Channel W
on_run (a, r) c = (a, record { run = r; events = c.events })

module _ {W : Type 0} (outside : Outside W) (settings : Settings) where
  open outside use {
    now, random, wait, ctx_error, classify, stream, error_sent, trim, split_after_lines,
    ends_in_line_break, first_runes,
  }

  module _ (msgs : List Message) where
    -- One attempt: its events go into the channel.
    attempt_op : Option ℤ → ℕ → Channel W → Unit {0} × Option Failure × Channel W
    attempt_op timeout k c =
        let (signals, w) = stream timeout k msgs c.run.world in
        let (evs, e) = stream_attempt LlmEvent signals in
        (
          tt,
          e,
          record {
            run = act (asked msgs) (record { world = w; trace = c.run.trace });
            events = c.events ++ evs;
          },
        )

    unfoldable pub model_world : World (Channel W) (Unit {0})
    unfolding attempt_op
    model_world = record {
      now = λ c. on_run (on_world (now c.run.world) c.run) c;
      op = attempt_op;
      random = λ c. on_run (on_world (random c.run.world) c.run) c;
      wait = λ d c. on_run (on_world (wait d c.run.world) c.run) c;
      ctx_error = λ c. ctx_error c.run.world;
      zero_value = tt;
      classify = classify;
    }

    -- An error that the helper returns is sent, unless the context is seen to be done.
    error_event : Option Failure → Run W → Option Failure × Run W
    error_event none r = (none, r)
    error_event (some e) r =
        let (b, w) = error_sent r.world in
        (if b then some e else none, record { world = w; trace = r.trace })

    -- The goroutine of one iteration: its events, then its error.
    unfoldable pub ask_model : Run W → List LlmEvent × Option Failure × Run W
    unfolding error_event
    ask_model r =
        let (res, c) = do_retry model_world settings.llm_policy (record { run = r; events = [] }) in
        let (e, r') = error_event res.error c.run in (c.events, e, r')

  module _ (recalling : Bool) where
    shortened : String → String
    shortened line = elim (first_runes 300 line) [ some s ↦ concat s "…" | none ↦ line ]

    flush_thought : String → Run W → Run W
    unfolding shortened
    flush_thought buffered r =
        let line = trim buffered in
        if line == "" || not settings.surface_thoughts
        then r
        else emit recalling (thought (shortened line)) r

    -- The parts of a reasoning delta: what is left in the builder.
    think : List String → String → Run W → String × Run W
    unfolding flush_thought
    think [] buffered r = (buffered, r)
    think (part ∷ parts) buffered r = elim (ends_in_line_break part) [
      | true ↦ think parts "" (flush_thought (concat buffered part) r)
      | false ↦ think parts (concat buffered part) r
    ]

    hear : LlmEvent → Reply → Run W → Reply × Run W
    unfolding think flush_thought
    hear (reasoning_delta d) reply r =
        let (left, r') = think (split_after_lines d) reply.pending r in
        (record reply { pending = left }, r')
    hear (text_delta d) reply r = (
      record reply { blocks = append_or_extend_text reply.blocks d; pending = "" },
      emit recalling (delta d) (flush_thought reply.pending r),
    )
    hear (tool_use_stop tc) reply r = (
      record {
        blocks = reply.blocks ++ tool_use tc.id tc.name tc.input ∷ [];
        stop = reply.stop;
        calls = reply.calls ++ tc ∷ [];
        pending = "";
      },
      emit recalling (tool_call tc) (flush_thought reply.pending r),
    )
    hear (message_stop s) reply r = (record reply { stop = s }, r)
    hear other_kind reply r = (reply, r)

    -- The loop over the channel; what is left of a thought is flushed at its end.
    unfoldable pub hear_all : List LlmEvent → Reply → Run W → Reply × Run W
    unfolding hear flush_thought
    hear_all [] reply r = (reply, flush_thought reply.pending r)
    hear_all (ev ∷ evs) reply r = let (reply', r') = hear ev reply r in hear_all evs reply' r'

    unfoldable pub receive : List Message → Run W → Reply × Option Failure × Run W
    receive msgs r =
        let (evs, e, r') = ask_model msgs r in
        let (reply, r'') = hear_all evs no_reply r' in (reply, e, r'')
