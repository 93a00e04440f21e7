-- ===== src/Agent/Process/Whole.antt =====
-- From the iterations of a turn to the whole turn: the history is loaded and the prompt rendered
-- before them.
use ai_agent_go_service.Prelude.{
  ◌≡◌, refl, Bool, true, false, String, List, [], ◌∷◌, ◌++◌, Result, ok, err,
}
use ai_agent_go_service.Retry.Types.{Failure}
use ai_agent_go_service.Engine.Executor.{Attachment}
use ai_agent_go_service.Agent.Types.{Message, LlmToolUse, user, caused}
use ai_agent_go_service.Agent.Messages.{user_blocks}
use ai_agent_go_service.Agent.Run.{asked, Trace, Run, Settings, Outside}
use ai_agent_go_service.Agent.Reply.Laws.{SendsKeep}
use ai_agent_go_service.Agent.Tools.Laws.{CallsKeep}
use ai_agent_go_service.Agent.Ending.{Loop}
use ai_agent_go_service.Agent.Process.{
  iterate, iterate_from, start_loop, with_prompt, with_history, loaded, process,
}
use ai_agent_go_service.Agent.Process.Ended.{
  EndsWell, AgainHolds, fail_stream-Ended, iterate_from-Ended,
}

abbrev pub user_message : List Attachment → String → Message
user_message attachments message = record { role = user; content = user_blocks attachments message }

-- An invariant of the loop's variables, which the start establishes for each history that memory
-- may hold, and under which the requests preserve the predicate on traces.
pub record Guards {W : Type 0} (outside : Outside W) (settings : Settings) (user_msg : Message)
    (P : Trace → Type 0) (Inv : Loop → Type 0) (Fine : List Message → Type 0) : Type 0 where
  pub no_history : Fine []
  pub history_fine :
      (w : W) (history : List Message) → (outside.load_history w).0 ≡ ok history → Fine history
  pub starts :
      (history : List Message)
      → Fine history
      → Inv (start_loop outside settings (history ++ user_msg ∷ []))
  pub goes_on :
      (l : Loop) (r : Run W) → Inv l → AgainHolds Inv (iterate outside settings user_msg l r)
  pub asks : (l : Loop) → Inv l → (t : Trace) → P t → P (asked l.msgs ∷ t)
  pub sends : SendsKeep false P
  pub calls : (tc : LlmToolUse) → CallsKeep tc P

module _ {W : Type 0} (outside : Outside W) (settings : Settings) (user_msg : Message)
    (P : Trace → Type 0) (Inv : Loop → Type 0) (Fine : List Message → Type 0)
    (guards : Guards outside settings user_msg P Inv Fine) where
  iterations-Ended :
      (history : List Message) (r : Run W)
      → Fine history
      → P r.trace
      → EndsWell outside settings P user_msg (
          iterate_from outside settings user_msg settings.max_iterations
            (start_loop outside settings (history ++ user_msg ∷ []))
            r)
  iterations-Ended history r f h =
      iterate_from-Ended outside settings P user_msg Inv guards.goes_on guards.asks guards.sends
        guards.calls settings.max_iterations _ r (guards.starts history f) h

  with_prompt-Ended :
      (history : List Message) (sys : Result Failure String × W) (r : Run W)
      → Fine history
      → P r.trace
      → EndsWell outside settings P user_msg (with_prompt outside settings history user_msg sys r)
  unfolding with_prompt
  with_prompt-Ended history (err e, w) r f h =
      fail_stream-Ended outside settings P user_msg "render-error" (caused e)
        (record { world = w; trace = r.trace }) h
  with_prompt-Ended history (ok sys, w) r f h =
      iterations-Ended history (record { world = w; trace = r.trace }) f h

  with_history-Ended :
      (x : Result Failure (List Message) × W) (r : Run W)
      → ((history : List Message) → x.0 ≡ ok history → Fine history)
      → P r.trace
      → EndsWell outside settings P user_msg (with_history outside settings user_msg x r)
  unfolding with_history
  with_history-Ended (err e, w) r f h =
      fail_stream-Ended outside settings P user_msg "memory-load-error" (caused e)
        (record { world = w; trace = r.trace }) h
  with_history-Ended (ok history, w) r f h =
      with_prompt-Ended history (outside.render w) (record { world = w; trace = r.trace })
        (f history refl) h

  loaded-Ended :
      (b : Bool) (r : Run W)
      → P r.trace
      → EndsWell outside settings P user_msg (loaded outside settings b user_msg r)
  unfolding loaded
  loaded-Ended true r h = with_history-Ended _ r (guards.history_fine r.world) h
  loaded-Ended false r h =
      with_prompt-Ended [] (outside.render r.world) (record { world = r.world; trace = r.trace })
        guards.no_history h

pub process-EndsWell :
    {W : Type 0} (outside : Outside W) (settings : Settings) (P : Trace → Type 0)
    (Inv : Loop → Type 0) (Fine : List Message → Type 0) (attachments : List Attachment)
    (message : String)
    → Guards outside settings (user_message attachments message) P Inv Fine
    → (r : Run W) → P r.trace
    → EndsWell outside settings P
        (user_message attachments message)
        (process outside settings attachments message r)
unfolding process
process-EndsWell outside settings P Inv Fine attachments message guards r h =
    loaded-Ended outside settings _ P Inv Fine guards settings.has_memory r h
