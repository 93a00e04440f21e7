-- ===== src/Agent/Reply/Laws.antt =====
-- What one call of the model preserves of the trace: it asks with the messages it was given, and
-- sends events unless a chart is recalled.
use ai_agent_go_service.Prelude.{
  String, ◌==◌, ◌||◌, not, ◌≡◌, refl, Bool, true, false, List, [], ◌∷◌, Option, some, none,
  Bool-cases, inl, inr,
}
use ai_agent_go_service.Retry.Types.{Failure}
use ai_agent_go_service.Retry.Loop.Keeps.{Kept, do_retry-keeps}
use ai_agent_go_service.Agent.Types.{
  Message, LlmEvent, reasoning_delta, text_delta, tool_use_stop, message_stop, other_kind,
  StreamEvent, delta, tool_call,
}
use ai_agent_go_service.Agent.Run.{Trace, asked, sent, Run, Settings, Outside}
use ai_agent_go_service.Agent.Reply.{
  Reply, no_reply, emit, attempt_op, model_world, error_event, ask_model, flush_thought, think,
  hear, hear_all, receive,
}

-- Sending an event preserves the predicate, unless a recall is active.
abbrev pub SendsKeep : Bool → (Trace → Type 0) → Type 0
SendsKeep recalling P = recalling ≡ false → (ev : StreamEvent) (t : Trace) → P t → P (sent ev ∷ t)

module _ {W : Type 0} (recalling : Bool) (P : Trace → Type 0) (sends : SendsKeep recalling P) where
  pub emit-keeps : (ev : StreamEvent) (r : Run W) → P r.trace → P (emit recalling ev r).trace
  emit-keeps ev r h = emitted recalling refl
    where
      emitted : (b : Bool) → recalling ≡ b → P (emit b ev r).trace
      emitted true e = h
      emitted false e = sends e ev r.trace h

  module _ (outside : Outside W) (settings : Settings) where
    flush_thought-keeps :
        (s : String) (r : Run W)
        → P r.trace
        → P (flush_thought outside settings recalling s r).trace
    unfolding flush_thought
    flush_thought-keeps s r h =
        elim (Bool-cases (outside.trim s == "" || not settings.surface_thoughts)) [
          | inl t ↦ rw t h
          | inr f ↦ rw f (emit-keeps _ r h)
        ]

    think-keeps :
        (parts : List String) (s : String) (r : Run W)
        → P r.trace
        → P (think outside settings recalling parts s r).1.trace
    unfolding think
    think-keeps [] s r h = h
    think-keeps (part ∷ parts) s r h = elim (Bool-cases (outside.ends_in_line_break part)) [
      | inl t ↦ rw (think, t) (think-keeps parts "" _ (flush_thought-keeps _ r h))
      | inr f ↦ rw (think, f) (think-keeps parts _ r h)
    ]

    hear-keeps :
        (ev : LlmEvent) (reply : Reply) (r : Run W)
        → P r.trace
        → P (hear outside settings recalling ev reply r).1.trace
    unfolding hear
    hear-keeps (reasoning_delta d) reply r h =
        think-keeps (outside.split_after_lines d) reply.pending r h
    hear-keeps (text_delta d) reply r h =
        emit-keeps (delta d) _ (flush_thought-keeps reply.pending r h)
    hear-keeps (tool_use_stop tc) reply r h =
        emit-keeps (tool_call tc) _ (flush_thought-keeps reply.pending r h)
    hear-keeps (message_stop s) reply r h = h
    hear-keeps other_kind reply r h = h

    hear_all-keeps :
        (evs : List LlmEvent) (reply : Reply) (r : Run W)
        → P r.trace
        → P (hear_all outside settings recalling evs reply r).1.trace
    unfolding hear_all
    hear_all-keeps [] reply r h = flush_thought-keeps reply.pending r h
    hear_all-keeps (ev ∷ evs) reply r h =
        let (reply', r') = hear outside settings recalling ev reply r in
        hear_all-keeps evs reply' r' (hear-keeps ev reply r h)

    module _ (msgs : List Message) (asks : (t : Trace) → P t → P (asked msgs ∷ t)) where
      model_world-Kept : Kept (model_world outside settings msgs) (λ c. P c.run.trace)
      unfolding model_world attempt_op
      model_world-Kept = record {
        now_keeps = λ c h. h;
        op_keeps = λ t k c h. asks c.run.trace h;
        random_keeps = λ c h. h;
        wait_keeps = λ d c h. h;
      }

      error_event-keeps :
          (e : Option Failure) (r : Run W)
          → P r.trace
          → P (error_event outside settings msgs e r).1.trace
      unfolding error_event
      error_event-keeps none r h = h
      error_event-keeps (some e) r h = h

      ask_model-keeps : (r : Run W) → P r.trace → P (ask_model outside settings msgs r).2.trace
      unfolding ask_model
      ask_model-keeps r h = error_event-keeps _ _ (
          do_retry-keeps (model_world outside settings msgs) (λ c. P c.run.trace) model_world-Kept
            settings.llm_policy (record { run = r; events = [] }) h)

      pub receive-keeps :
          (r : Run W) → P r.trace → P (receive outside settings recalling msgs r).2.trace
      unfolding receive
      receive-keeps r h =
          let (evs, e, r') = ask_model outside settings msgs r in
          hear_all-keeps evs no_reply r' (ask_model-keeps r h)
