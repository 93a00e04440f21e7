-- ===== src/NatsChat/Trigger/Single.antt =====
-- The one reply of the mode "single".
use ai_agent_go_service.Prelude.{
  ◌≡◌, String, ◌==◌, Bool, true, false, ◌&&◌, ◌||◌, List, [], ◌∷◌, ◌++◌, Option, some, none, ok,
}
use ai_agent_go_service.NatsChat.Collect.{
  stream_complete, StreamEvent, CompletePayload, SingleResult, PayloadCodec, SinkCall, sends,
  closes,
}
use ai_agent_go_service.NatsChat.Collect.Laws.{attached, Answers}
use ai_agent_go_service.NatsChat.Access.{server_err}
use ai_agent_go_service.NatsChat.Trigger.{Reply, refused_with, replied_with}

-- The event that first ends the stream, with the attachments before it.
abbrev pub first_end : List String → List SinkCall → Option (List String × StreamEvent)
first_end atts [] = none
first_end atts (sends e ∷ calls) = first_end (atts ++ attached e.kind e.data_raw) calls
first_end atts (closes term ∷ calls) = some (atts, term)

-- Whether an error is one of time: a timeout, or a cancellation of a run whose time has expired.
abbrev pub is_timeout : Bool → SingleResult → Bool
is_timeout expired r = r.err_code == "timeout" || (r.err_code == "cancelled" && expired)

-- What the reply says of that end, by whether the run's time has expired.
pub data Replies (codec : PayloadCodec) (id : String) (atts : List String) (term : StreamEvent)
    (expired : Bool) : Reply → Type 0 where
  answers :
      (p : CompletePayload) (body : String)
      → term.kind ≡ stream_complete
      → codec.decode_complete term.data_raw ≡ ok p
      → codec.marshal (record {
        session_id = id;
        final_text = p.final_text;
        stop_reason = p.message_stop;
        attachments = atts;
      })
        ≡ ok body
      → Replies codec id atts term expired (replied_with body)
  times_out :
      (r : SingleResult)
      → Answers codec id atts term r
      → is_timeout expired r ≡ true
      → Replies codec id atts term expired
          (refused_with (server_err "timeout" "request timeout" "504"))
  reports :
      (r : SingleResult)
      → Answers codec id atts term r
      → (r.err_code == "") ≡ false
      → is_timeout expired r ≡ false
      → Replies codec id atts term expired
          (refused_with (server_err r.err_code r.err_message "500"))

pair_or : List String × StreamEvent → Option (List String × StreamEvent) → List String × StreamEvent
pair_or p (some q) = q
pair_or p none = p
