-- ===== src/NatsChat/Collect.antt =====
-- collectsink.go: a stream that is collected into the one reply of the mode "single". The mutex
-- makes each call a step; the channel `done` has room for one result.
pub mod Laws
pub mod Examples
use ai_agent_go_service.Prelude.{
  String, ◌==◌, Bool, true, false, List, [], ◌∷◌, ◌++◌, if◌then◌else◌, Result, ok, err,
}
use Prim.Native.String.{◌++◌ as concat}

pub data Kind : Type 0 where
  stream_complete stream_attachment : Kind
  -- The other six types of events.
  other_kind : String → Kind

pub record StreamEvent : Type 0 where
  pub kind : Kind
  pub data_raw : String

pub record CompletePayload : Type 0 where
  pub final_text : String
  pub message_stop : String

pub record ErrorPayload : Type 0 where
  pub code : String
  pub message : String

pub record SingleResult : Type 0 where
  pub body : String
  pub err_code : String
  pub err_message : String

pub record SingleResponseBody : Type 0 where
  pub session_id : String
  pub final_text : String
  pub stop_reason : String
  pub attachments : List String

-- encoding/json on these types; an error payload that does not decode has what was decoded of it.
pub record PayloadCodec : Type 0 where
  pub decode_complete : String → Result String CompletePayload
  pub decode_error : String → ErrorPayload
  pub marshal : SingleResponseBody → Result String String

-- `done` holds what was sent on the channel, in order.
pub record CollectSink : Type 0 where
  pub session_id : String
  pub closed : Bool
  pub attachments : List String
  pub done : List SingleResult

abbrev pub new_collect_sink : String → CollectSink
new_collect_sink id = record { session_id = id; closed = false; attachments = []; done = [] }

abbrev pub executor_failed : String
executor_failed = "executor-failed"

keep : Bool → String → CollectSink → CollectSink
keep true raw c = c
keep false raw c = record c { closed = false; attachments = c.attachments ++ raw ∷ [] }

send_kind : Kind → String → CollectSink → CollectSink
unfolding keep
send_kind stream_complete raw c = c
send_kind stream_attachment raw c = keep c.closed raw c
send_kind (other_kind t) raw c = c

unfoldable pub send : StreamEvent → CollectSink → CollectSink
unfolding send_kind
send evt c = send_kind evt.kind evt.data_raw c

abbrev single_error : String → String → SingleResult
single_error code message = record { body = ""; err_code = code; err_message = message }

or_else : String → String → String
or_else default s = if s == "" then default else s

module _ (codec : PayloadCodec) where
  marshalled : Result String String → SingleResult
  marshalled (ok body) = record { body = body; err_code = ""; err_message = "" }
  marshalled (err e) = single_error executor_failed (concat "marshal single response: " e)

  complete_result : CollectSink → Result String CompletePayload → SingleResult
  unfolding marshalled
  complete_result c (ok p) = marshalled (
      codec.marshal (record {
        session_id = c.session_id;
        final_text = p.final_text;
        stop_reason = p.message_stop;
        attachments = c.attachments;
      }))
  complete_result c (err e) = single_error executor_failed (concat "malformed complete payload: " e)

  error_result : ErrorPayload → SingleResult
  unfolding or_else
  error_result p =
      single_error (or_else executor_failed p.code) (or_else "workflow failed" p.message)

  close_result : Kind → String → CollectSink → SingleResult
  unfolding complete_result error_result
  close_result stream_complete raw c = complete_result c (codec.decode_complete raw)
  close_result stream_attachment raw c = error_result (codec.decode_error raw)
  close_result (other_kind t) raw c = error_result (codec.decode_error raw)

  close_once : Bool → StreamEvent → CollectSink → CollectSink
  unfolding close_result
  close_once true term c = c
  close_once false term c = record c {
    closed = true;
    done = c.done ++ close_result term.kind term.data_raw c ∷ [];
  }

  unfoldable pub close : StreamEvent → CollectSink → CollectSink
  unfolding close_once
  close term c = close_once c.closed term c

-- The calls of the executor and of its agent, in the order in which they take the lock.
pub data SinkCall : Type 0 where
  sends closes : StreamEvent → SinkCall

unfoldable pub collect : PayloadCodec → List SinkCall → CollectSink → CollectSink
unfolding send close
collect codec [] c = c
collect codec (sends evt ∷ calls) c = collect codec calls (send evt c)
collect codec (closes term ∷ calls) c = collect codec calls (close codec term c)
