-- ===== src/Agent/Process/Laws.antt =====
-- The end of a whole turn, and the rounds that the client does not see.
use ai_agent_go_service.Prelude.{◌≡◌, refl, Bool, true, false, String, List, [], ◌∷◌, All, arith}
use ai_agent_go_service.Engine.Executor.{Attachment}
use ai_agent_go_service.Agent.Types.{Message, StreamEvent}
use ai_agent_go_service.Agent.Run.{Action, sent, closed, stored, Trace, Run, Settings, Outside}
use ai_agent_go_service.Agent.Ending.{Loop, Next, ended, again}
use ai_agent_go_service.Agent.Process.{iterate, process}
use ai_agent_go_service.Agent.Process.Ended.{Ended, NextKeeps, AgainHolds, iterate-Keeps}
use ai_agent_go_service.Agent.Process.Whole.{user_message, Guards, process-EndsWell}

-- What may happen while the turn goes on: neither the end of the stream nor a write to memory.
abbrev pub is_live : Action → Bool
is_live (closed ev) = false
is_live (stored turn) = false
is_live a = true

abbrev pub Live : Trace → Type 0
Live t = All (λ a. is_live a ≡ true) t

-- The events that the client got, the latest first.
abbrev pub sent_in : Trace → List StreamEvent
sent_in [] = []
sent_in (sent ev ∷ t) = ev ∷ sent_in t
sent_in (a ∷ t) = sent_in t

module _ {W : Type 0} (outside : Outside W) (settings : Settings) where
  goes_on-anything : (x : Next W) → AgainHolds (λ l. Unit) x
  goes_on-anything (ended c r) = tt
  goes_on-anything (again l r) = tt

  Live-Guards : (user_msg : Message) → Guards outside settings user_msg Live (λ l. Unit) (λ h. Unit)
  Live-Guards user_msg = record {
    no_history = tt;
    history_fine = λ w history e. tt;
    starts = λ history f. tt;
    goes_on = λ l r i. goes_on-anything (iterate outside settings user_msg l r);
    asks = λ l i t h. (refl, h);
    sends = λ e ev t h. (refl, h);
    calls = λ tc. record { on_invoked = λ t h. (refl, h); on_awaited = λ t h. (refl, h) };
  }

  -- Every turn, whatever the model, the tools and memory answer, ends by closing the stream to the
  -- client exactly once, as its last action. It closes with an error, which the turn returns, or
  -- with the complete event; a write to memory comes just before that, at most once, with the
  -- user's message and the texts of the answer that the complete event shows.
  pub process-Ended :
      (attachments : List Attachment) (message : String) (w : W)
      → let (c, r) =
          process outside settings attachments message (record { world = w; trace = [] }) in
        Ended outside.itoa (user_message attachments message) Live c r.trace
  process-Ended attachments message w =
      process-EndsWell outside settings Live (λ l. Unit) (λ h. Unit) attachments message
        (Live-Guards (user_message attachments message)) (record { world = w; trace = [] }) tt

  -- A round of the loop that runs while a chart is recalled sends the client nothing: its trace has
  -- the events it had before, but for the closing one if the round ends the turn.
  pub iterate-silent :
      (user_msg : Message) (l : Loop) (r : Run W)
      → l.forced_recall_active ≡ true
      → NextKeeps outside settings
          (λ t. sent_in t ≡ sent_in r.trace)
          user_msg
          (iterate outside settings user_msg l r)
  iterate-silent user_msg l r h =
      iterate-Keeps outside settings (λ t. sent_in t ≡ sent_in r.trace) user_msg l (λ t k. k)
        (λ e ev t k. absurd (ground (arith, h, e)))
        (λ tc. record { on_invoked = λ t k. k; on_awaited = λ t k. k }) r refl
