-- ===== src/Agent/Process/Requests.antt =====
-- The messages of the requests to the model, which the model's provider rejects without content.
use ai_agent_go_service.Prelude.{
  ◌≡◌, refl, subst, Bool, true, false, not, ◌&&◌, ◌||◌, ◌==◌, ltb, String, List, [], ◌∷◌, ◌++◌,
  Option, some, none, All, All-append, Bool-cases, inl, inr, arith, ok,
}
use ai_agent_go_service.Retry.Types.{Failure}
use ai_agent_go_service.Engine.Executor.{Attachment}
use ai_agent_go_service.Agent.Types.{ContentBlock, text, Message}
use ai_agent_go_service.Agent.Messages.{is_empty, last_text, user_blocks}
use ai_agent_go_service.Agent.Messages.Laws.{last_text-nil}
use ai_agent_go_service.Agent.Charts.{distinct_from, missing_chart_keys, extract_chart_keys}
use ai_agent_go_service.Agent.Run.{Action, asked, Trace, Run, Settings, Outside}
use ai_agent_go_service.Agent.Reply.{Reply, receive}
use ai_agent_go_service.Agent.Reply.Blocks.{blocks-of_calls}
use ai_agent_go_service.Agent.Tools.{Results, halted_by, results}
use ai_agent_go_service.Agent.Ending.{
  Loop, no_answer, finish_turn, wants_recall, settle, recall, calm, restore, final_answer,
  ask_again, end_turn, with_msgs,
}
use ai_agent_go_service.Agent.Process.{after_results, after_reply, unless_done, iterate, process}
use ai_agent_go_service.Agent.Process.Ended.{Ended, AgainHolds}
use ai_agent_go_service.Agent.Process.Whole.{user_message, process-EndsWell}

abbrev pub HasContent : Message → Type 0
HasContent m = is_empty m.content ≡ false

-- Every request so far had messages with content only.
abbrev pub AskedWell : Action → Type 0
AskedWell (asked msgs) = All HasContent msgs
AskedWell a = Unit

abbrev pub Asks : Trace → Type 0
Asks t = All AskedWell t

-- What holds of the loop's variables between two iterations.
record Sound (l : Loop) : Type 0 where
  filled : All HasContent l.msgs
  forced : l.forced_recall_active ≡ true → l.chart_recall_forced ≡ true

is_empty-append : {A : Type 0} (xs : List A) (y : A) (ys : List A) → is_empty (xs ++ y ∷ ys) ≡ false
is_empty-append [] y ys = refl
is_empty-append (x ∷ xs) y ys = refl

user_message-HasContent :
    (attachments : List Attachment) (message : String)
    → HasContent (user_message attachments message)
unfolding user_blocks
user_message-HasContent attachments message = is_empty-append _ (text message) []

is_empty-no_answer : (bs : List ContentBlock) → is_empty (no_answer bs) ≡ false
unfolding no_answer
is_empty-no_answer [] = refl
is_empty-no_answer (b ∷ bs) = refl

never : {b : Bool} → b ≡ true → b ≡ false → ⊥
never t f = absurd (ground (arith, t, f))

right_false : (a b : Bool) → a || b ≡ false → b ≡ false
right_false true b h = absurd (ground (arith, h))
right_false false b h = h

filled_one :
    (msgs : List Message) (m : Message)
    → All HasContent msgs
    → HasContent m
    → All HasContent (msgs ++ m ∷ [])
filled_one msgs m h k = All-append HasContent msgs (m ∷ []) h (k, tt)

module _ {W : Type 0} (outside : Outside W) (settings : Settings) (user_msg : Message)
    (no_key : outside.patterns.find_keys "" ≡ []) where
  -- A text without a key asks for no chart.
  wants_recall-blank : (l : Loop) → wants_recall outside settings user_msg l "" ≡ false
  unfolding wants_recall extract_chart_keys distinct_from missing_chart_keys
  wants_recall-blank l = rw no_key refl

  wants_recall-HasContent :
      (l : Loop) (answer : Message)
      → wants_recall outside settings user_msg l (last_text answer) ≡ true
      → HasContent answer
  wants_recall-HasContent l answer h = of_blocks answer.content h
    where
      of_blocks :
          (bs : List ContentBlock)
          → wants_recall outside settings user_msg l
              (last_text (record { role = answer.role; content = bs }))
            ≡ true
          → is_empty bs ≡ false
      of_blocks [] k = absurd (
          never
            (subst (λ s. wants_recall outside settings user_msg l s ≡ true)
              (last_text-nil answer.role) k)
            (wants_recall-blank l))
      of_blocks (b ∷ bs) k = refl

  settle-Sound :
      (l : Loop) (final : Message) (s stop : String) (r : Run W)
      → (wants_recall outside settings user_msg l s ≡ true → All HasContent l.msgs)
      → AgainHolds Sound (settle outside settings user_msg l final s stop r)
  unfolding settle recall finish_turn
  settle-Sound l final s stop r h = elim (Bool-cases (wants_recall outside settings user_msg l s)) [
    | inl t ↦ rw t (record { filled = filled_one l.msgs _ (h t) refl; forced = λ e. refl })
    | inr f ↦ rw f tt
  ]

  -- After a recall, none is wanted.
  wants_recall-forced :
      (l : Loop) (s : String)
      → l.chart_recall_forced ≡ true
      → wants_recall outside settings user_msg (calm l) s ≡ false
  unfolding wants_recall calm
  wants_recall-forced l s h = ground (arith, h)

  restore-Sound :
      (b : Bool) (l : Loop) (answer : Message) (stop : String) (r : Run W)
      → (b ≡ true → l.chart_recall_forced ≡ true)
      → All HasContent l.msgs
      → AgainHolds Sound
          (restore outside settings user_msg b (with_msgs l (l.msgs ++ answer ∷ [])) answer stop r)
  unfolding restore with_msgs
  restore-Sound true l answer stop r forced h = settle-Sound _ _ _ stop r (λ t. absurd (
      never t (
        wants_recall-forced (with_msgs l (l.msgs ++ answer ∷ [])) l.preserved_answer
          (forced refl))))
  restore-Sound false l answer stop r forced h =
      settle-Sound _ answer _ stop r
        (λ t. filled_one l.msgs answer h (wants_recall-HasContent _ answer t))

  end_turn-Sound :
      (l : Loop) (answer : Message) (stop : String) (r : Run W)
      → Sound l
      → AgainHolds Sound (end_turn outside settings user_msg l answer stop r)
  unfolding end_turn ask_again final_answer
  end_turn-Sound l answer stop r sound =
      elim (Bool-cases (
        not l.forced_recall_active
        && (outside.trim (last_text answer) == "")
        && ltb l.empty_answer_retries settings.max_empty_answer_retries)) [
          | inl t ↦ rw t (record {
            filled =
                All-append HasContent l.msgs _ sound.filled
                  (is_empty-no_answer answer.content, (refl, tt));
            forced = sound.forced;
          })
          | inr f ↦
              rw f (restore-Sound l.forced_recall_active l answer stop r sound.forced sound.filled)
        ]

  -- A turn of tools follows an answer with calls, which has their blocks.
  after_results-Sound :
      (l : Loop) (answer : Message) (rs : Results W)
      → Sound l
      → HasContent answer
      → AgainHolds Sound (after_results outside settings user_msg l answer rs)
  unfolding after_results
  after_results-Sound l answer (halted_by e r) sound h = tt
  after_results-Sound l answer (results counts [] r) sound h = tt
  after_results-Sound l answer (results counts (b ∷ bs) r) sound h = record {
    filled = All-append HasContent l.msgs _ sound.filled (h, (refl, tt));
    forced = sound.forced;
  }

  after_reply-Sound :
      (l : Loop) (reply : Reply) (e : Option Failure) (r : Run W)
      → Sound l
      → (is_empty reply.calls ≡ false → is_empty reply.blocks ≡ false)
      → AgainHolds Sound (after_reply outside settings user_msg l reply e r)
  unfolding after_reply
  after_reply-Sound l reply (some e) r sound h = tt
  after_reply-Sound l reply none r sound h =
      elim (Bool-cases (reply.stop == "end_turn" || is_empty reply.calls)) [
        | inl t ↦ rw t (end_turn-Sound l _ reply.stop r sound)
        | inr f ↦ rw f (after_results-Sound l _ _ sound (h (right_false _ _ f)))
      ]

  unless_done-Sound :
      (d : Option Failure × W) (l : Loop) (r : Run W)
      → Sound l
      → AgainHolds Sound (unless_done outside settings user_msg d l r)
  unfolding unless_done
  unless_done-Sound (some e, w) l r sound = tt
  unless_done-Sound (none, w) l r sound =
      let r' : Run W = record { world = w; trace = r.trace } in
      let (reply, e, r'') = receive outside settings l.forced_recall_active l.msgs r' in
      after_reply-Sound l reply e r'' sound
        (blocks-of_calls outside settings l.forced_recall_active l.msgs r')

  iterate-Sound :
      (l : Loop) (r : Run W) → Sound l → AgainHolds Sound (iterate outside settings user_msg l r)
  unfolding iterate
  iterate-Sound l r sound = unless_done-Sound (outside.ctx_done r.world) l r sound

-- If memory holds only messages with content, and the pattern for charts finds none in the empty
-- text, every request of a turn to the model consists of messages with content: the trace of the
-- turn has ended, and before its end each request was of that kind.
pub process-Asks :
    {W : Type 0} (outside : Outside W) (settings : Settings) (attachments : List Attachment)
    (message : String) (w : W)
    → outside.patterns.find_keys "" ≡ []
    → ((w : W) (history : List Message)
        → (outside.load_history w).0 ≡ ok history
        → All HasContent history)
    → let (c, r) =
        process outside settings attachments message (record { world = w; trace = [] }) in
      Ended outside.itoa (user_message attachments message) Asks c r.trace
process-Asks outside settings attachments message w no_key fine =
    process-EndsWell outside settings Asks Sound (All HasContent) attachments message
      (record {
        no_history = tt;
        history_fine = fine;
        starts = λ history f. record {
          filled = filled_one history _ f (user_message-HasContent attachments message);
          forced = λ e. e;
        };
        goes_on = λ l r i. iterate-Sound outside settings _ no_key l r i;
        asks = λ l i t h. (i.filled, h);
        sends = λ e ev t h. (tt, h);
        calls = λ tc. record { on_invoked = λ t h. (tt, h); on_awaited = λ t h. (tt, h) };
      })
      (record { world = w; trace = [] }) tt
