-- ===== src/Agent/Process/Ended.antt =====
-- How a turn can end: the stream to the client is closed last, after the turn went to memory.
use ai_agent_go_service.Prelude.{
  ℕ, zero, suc, String, ◌==◌, refl, Bool, true, false, not, ◌&&◌, ◌||◌, [], ◌∷◌, Option, some, none,
  ltb, Bool-cases, inl, inr,
}
use ai_agent_go_service.Retry.Types.{Failure}
use ai_agent_go_service.Agent.Types.{
  Message, LlmToolUse, Cause, caused, no_tool_results, complete, stream_error,
}
use ai_agent_go_service.Agent.Messages.{is_empty, last_text, message_stop_of}
use ai_agent_go_service.Agent.Run.{Trace, asked, closed, stored, Run, Settings, Outside}
use ai_agent_go_service.Agent.Reply.{Reply, receive}
use ai_agent_go_service.Agent.Reply.Laws.{SendsKeep, receive-keeps}
use ai_agent_go_service.Agent.Tools.{Results, halted_by, results, run_calls}
use ai_agent_go_service.Agent.Tools.Laws.{CallsKeep, results_run, run_calls-keeps}
use ai_agent_go_service.Agent.Ending.{
  turn_of, Loop, Next, ended, again, fail_stream, close_complete, after_append, complete_stream,
  finish_turn, wants_recall, settle, recall, calm, restore, final_answer, append_turn, ask_again,
  with_msgs, end_turn,
}
use ai_agent_go_service.Agent.Process.{
  unless_done, after_results, after_reply, iterate, iterate_from,
}

-- What the turn returns and its trace when it is over, the last action first; before that `P`
-- held. Memory gets the user's message and the texts of the answer that the client is told.
pub data Ended (itoa : ℕ → String) (user_msg : Message) (P : Trace → Type 0)
    : Option Cause → Trace → Type 0 where
  failed_at :
      (code : String) (c : Cause) (t : Trace)
      → P t
      → Ended itoa user_msg P (some c) (closed (stream_error code c) ∷ t)
  completed_at :
      (c : Option Cause) (s stop : String) (t : Trace)
      → P t
      → Ended itoa user_msg P c (closed (complete s stop) ∷ t)
  remembered :
      (c : Option Cause) (final : Message) (stop : String) (t : Trace)
      → P t
      → Ended itoa user_msg P c
          (closed (complete (last_text final) stop) ∷ stored (turn_of itoa user_msg final) ∷ t)
  not_remembered :
      (final : Message) (code : String) (c : Cause) (t : Trace)
      → P t
      → Ended itoa user_msg P
          (some c)
          (closed (stream_error code c) ∷ stored (turn_of itoa user_msg final) ∷ t)

-- A predicate holds of the loop that goes on, if one does.
abbrev pub AgainHolds : {W : Type 0} → (Loop → Type 0) → Next W → Type 0
AgainHolds Inv (ended c r) = Unit
AgainHolds Inv (again l r) = Inv l

module _ {W : Type 0} (outside : Outside W) (settings : Settings) (P : Trace → Type 0)
    (user_msg : Message) where
  -- An iteration ends the turn in that way, or leaves the predicate in force.
  abbrev pub NextKeeps : Next W → Type 0
  NextKeeps (ended c r) = Ended outside.itoa user_msg P c r.trace
  NextKeeps (again l r) = P r.trace

  abbrev pub EndsWell : Option Cause × Run W → Type 0
  EndsWell (c, r) = Ended outside.itoa user_msg P c r.trace

  pub fail_stream-Ended :
      (code : String) (c : Cause) (r : Run W)
      → P r.trace
      → EndsWell (fail_stream outside settings code c r)
  unfolding fail_stream
  fail_stream-Ended code c r h = failed_at code c r.trace h

  after_append-Ended :
      (final : Message) (stop : String) (e : Option Failure) (w : W) (t : Trace)
      → P t
      → EndsWell (
          after_append outside settings final stop e
            (record { world = w; trace = stored (turn_of outside.itoa user_msg final) ∷ t }))
  unfolding after_append close_complete fail_stream
  after_append-Ended final stop (some e) w t h = not_remembered final _ _ t h
  after_append-Ended final stop none w t h = remembered _ final (message_stop_of stop) t h

  append_turn-Ended :
      (b : Bool) (final : Message) (stop : String) (r : Run W)
      → P r.trace
      → EndsWell (append_turn outside settings b user_msg final stop r)
  unfolding append_turn close_complete
  append_turn-Ended true final stop r h = after_append-Ended final stop _ _ r.trace h
  append_turn-Ended false final stop r h = completed_at _ _ _ r.trace h

  complete_stream-Ended :
      (final : Message) (stop : String) (r : Run W)
      → P r.trace
      → EndsWell (complete_stream outside settings user_msg final stop r)
  unfolding complete_stream
  complete_stream-Ended final stop r h = append_turn-Ended settings.has_memory final stop r h

  finish_turn-Keeps :
      (l : Loop) (final : Message) (s stop : String) (r : Run W)
      → P r.trace
      → NextKeeps (finish_turn outside settings user_msg l final s stop r)
  unfolding finish_turn
  finish_turn-Keeps l final s stop r h = complete_stream-Ended _ stop r h

  settle-Keeps :
      (l : Loop) (final : Message) (s stop : String) (r : Run W)
      → P r.trace
      → NextKeeps (settle outside settings user_msg l final s stop r)
  unfolding settle recall
  settle-Keeps l final s stop r h = elim (Bool-cases (wants_recall outside settings user_msg l s)) [
    | inl t ↦ rw t h
    | inr f ↦ rw f (finish_turn-Keeps l final s stop r h)
  ]

  restore-Keeps :
      (b : Bool) (l : Loop) (answer : Message) (stop : String) (r : Run W)
      → P r.trace
      → NextKeeps (restore outside settings user_msg b l answer stop r)
  unfolding restore
  restore-Keeps true l answer stop r h = settle-Keeps (calm l) _ _ stop r h
  restore-Keeps false l answer stop r h = settle-Keeps l answer _ stop r h

  end_turn-Keeps :
      (l : Loop) (answer : Message) (stop : String) (r : Run W)
      → P r.trace
      → NextKeeps (end_turn outside settings user_msg l answer stop r)
  unfolding end_turn ask_again final_answer
  end_turn-Keeps l answer stop r h =
      elim (Bool-cases (
        not l.forced_recall_active
        && (outside.trim (last_text answer) == "")
        && ltb l.empty_answer_retries settings.max_empty_answer_retries)) [
          | inl t ↦ rw t h
          | inr f ↦ rw f (restore-Keeps l.forced_recall_active (with_msgs l _) answer stop r h)
        ]

  after_results-Keeps :
      (l : Loop) (answer : Message) (rs : Results W)
      → P (results_run rs).trace
      → NextKeeps (after_results outside settings user_msg l answer rs)
  unfolding after_results
  after_results-Keeps l answer (halted_by e r) h = fail_stream-Ended "tool-error" (caused e) r h
  after_results-Keeps l answer (results counts [] r) h =
      fail_stream-Ended "llm-error" no_tool_results r h
  after_results-Keeps l answer (results counts (b ∷ bs) r) h = h

  -- A predicate that asking with the loop's messages, sending and calling tools preserve.
  module _ (l : Loop) (asks : (t : Trace) → P t → P (asked l.msgs ∷ t))
      (sends : SendsKeep l.forced_recall_active P)
      (calls : (tc : LlmToolUse) → CallsKeep tc P) where
    after_reply-Keeps :
        (reply : Reply) (e : Option Failure) (r : Run W)
        → P r.trace
        → NextKeeps (after_reply outside settings user_msg l reply e r)
    unfolding after_reply
    after_reply-Keeps reply (some e) r h = fail_stream-Ended _ (caused e) r h
    after_reply-Keeps reply none r h =
        elim (Bool-cases (reply.stop == "end_turn" || is_empty reply.calls)) [
          | inl t ↦ rw t (end_turn-Keeps l _ reply.stop r h)
          | inr f ↦ rw f (
              after_results-Keeps l _
                (run_calls outside settings l.forced_recall_active reply.calls l.tool_error_counts
                  r)
                (run_calls-keeps outside settings l.forced_recall_active P sends reply.calls
                  l.tool_error_counts r calls h))
        ]

    unless_done-Keeps :
        (d : Option Failure × W) (r : Run W)
        → P r.trace
        → NextKeeps (unless_done outside settings user_msg d l r)
    unfolding unless_done
    unless_done-Keeps (some e, w) r h =
        fail_stream-Ended "cancelled" (caused e) (record { world = w; trace = r.trace }) h
    unless_done-Keeps (none, w) r h =
        let r' : Run W = record { world = w; trace = r.trace } in
        let (reply, e, r'') = receive outside settings l.forced_recall_active l.msgs r' in
        after_reply-Keeps reply e r''
          (receive-keeps l.forced_recall_active P sends outside settings l.msgs asks r' h)

    pub iterate-Keeps : (r : Run W) → P r.trace → NextKeeps (iterate outside settings user_msg l r)
    unfolding iterate
    iterate-Keeps r h = unless_done-Keeps (outside.ctx_done r.world) r h

  -- So do the iterations that are left, when an invariant of the loop allows its requests.
  module _ (Inv : Loop → Type 0)
      (inv_keeps : (l : Loop) (r : Run W)
        → Inv l
        → AgainHolds Inv (iterate outside settings user_msg l r))
      (asks : (l : Loop) → Inv l → (t : Trace) → P t → P (asked l.msgs ∷ t))
      (sends : SendsKeep false P) (calls : (tc : LlmToolUse) → CallsKeep tc P) where
    any_sends : (b : Bool) → SendsKeep b P
    any_sends b e = sends refl

    after_iteration :
        (n : ℕ) (x : Next W)
        → ((l : Loop) (r : Run W)
            → Inv l
            → P r.trace
            → EndsWell (iterate_from outside settings user_msg n l r))
        → AgainHolds Inv x
        → NextKeeps x
        → EndsWell (elim x [
          | ended c r ↦ (c, r)
          | again l r ↦ iterate_from outside settings user_msg n l r
        ])
    after_iteration n (ended c r) go_on i h = h
    after_iteration n (again l r) go_on i h = go_on l r i h

    pub iterate_from-Ended :
        (n : ℕ) (l : Loop) (r : Run W)
        → Inv l
        → P r.trace
        → EndsWell (iterate_from outside settings user_msg n l r)
    unfolding iterate_from
    iterate_from-Ended zero l r i h = fail_stream-Ended "max-iterations" _ r h
    iterate_from-Ended (suc n) l r i h =
        after_iteration n (iterate outside settings user_msg l r)
          (λ l' r' i' h'. iterate_from-Ended n l' r' i' h') (inv_keeps l r i)
          (iterate-Keeps l (asks l i) (any_sends l.forced_recall_active) calls r h)
