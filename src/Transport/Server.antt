-- ===== src/Transport/Server.antt =====
-- server.go: the server's side of a stream, one call after the other. What it hands to
-- nc.PublishMsg is kept in an outbox; whether a publish fails, and the random ids, are parameters.
pub mod Sealed
pub mod Script
pub mod Examples
use ai_agent_go_service.Prelude.{
  ℕ, ◌+◌, String, ◌==◌, Bool, true, false, List, [], ◌∷◌, ◌++◌, Option, some, none, Result, ok, err,
  eqb, if◌then◌else◌,
}
use Prim.Native.String.{◌++◌ as concat}
use ai_agent_go_service.Transport.Protocol.{
  Header, set_header, set_headers, hdr_stream_event, hdr_stream_sequence, hdr_stream_id,
  hdr_stream_cancel_subject, hdr_stream_tool_result_prefix, hdr_message_id, hdr_status, StreamEvent,
  Msg, is_terminator,
}

pub record StreamSession : Type 0 where
  pub reply_inbox : String
  pub stream_id : String
  pub cancel_subject : String
  pub base_path : String
  pub seq : ℕ
  pub closed : Bool
  pub subscribed : Bool
  pub cancelled : Bool
  pub outbox : List Msg

pub data SessionError : Type 0 where
  nil_message no_reply_inbox session_closed : SessionError
  subscribe_failed publish_failed : String → SessionError

-- A request: its reply inbox and its message id.
pub record Request : Type 0 where
  pub reply : String
  pub message_id : String

-- Prefix of toolresult.go
pub tool_result_prefix : String → String → String
tool_result_prefix base_path stream_id = concat base_path (concat "_.tool_result." stream_id)

opened : Request → String → String → String → StreamSession
opened r base_path id cancel_id = record {
  reply_inbox = r.reply;
  stream_id = if r.message_id == "" then id else r.message_id;
  cancel_subject = concat base_path (concat "_.stream_cancel." cancel_id);
  base_path = base_path;
  seq = 0;
  closed = false;
  subscribed = true;
  cancelled = false;
  outbox = [];
}

-- `id` and `cancel_id` are fresh UUIDs, and `failure` is the error of the subscription.
unfoldable pub new_stream_session :
    Option Request → String → String → String → Option String → Result SessionError StreamSession
unfolding opened
new_stream_session none base_path id cancel_id failure = err nil_message
new_stream_session (some r) base_path id cancel_id none =
    if r.reply == "" then err no_reply_inbox else ok (opened r base_path id cancel_id)
new_stream_session (some r) base_path id cancel_id (some e) =
    if r.reply == "" then err no_reply_inbox else err (subscribe_failed e)

-- The headers of the first event.
first_headers : StreamSession → Header → Header
first_headers s h =
    set_header hdr_stream_tool_result_prefix (tool_result_prefix s.base_path s.stream_id)
      (set_header hdr_stream_cancel_subject s.cancel_subject h)

module _ (itoa : ℕ → String) (publish_error : Msg → Option String) where
  -- The headers that publish sets before those of the event.
  unfoldable pub own_header : StreamSession → String → Header
  unfolding first_headers tool_result_prefix
  own_header s type =
      let base = set_header hdr_message_id s.stream_id (
        set_header hdr_stream_id s.stream_id
          (set_header hdr_stream_sequence (itoa s.seq) (set_header hdr_stream_event type []))) in
      set_header hdr_status (if type == "error" then "500" else "200")
        (if eqb s.seq 0 then first_headers s base else base)

  unfoldable pub message : StreamSession → String → String → Header → Msg
  unfolding own_header
  message s type body header = record {
    subject = s.reply_inbox;
    header = set_headers header (own_header s type);
    body = body;
  }

  failure_of : Option String → Option SessionError
  failure_of none = none
  failure_of (some e) = some (publish_failed e)

  -- The sequence number is spent even if the publish fails.
  publish : StreamSession → String → String → Header → Option SessionError × StreamSession
  unfolding failure_of
  publish s type body header =
      let m = message s type body header in
      (failure_of (publish_error m), record s { seq = s.seq + 1; outbox = s.outbox ++ m ∷ [] })

  terminate : StreamSession → String → String → Header → Option SessionError × StreamSession
  terminate s type body header =
      if s.closed
      then (none, s)
      else publish (record s { closed = true; subscribed = false; cancelled = true }) type body
          header

  pub start : StreamSession → String → Option SessionError × StreamSession
  unfolding publish
  start s payload = publish s "start" payload []

  pub send : StreamSession → String → String → Header → Option SessionError × StreamSession
  unfolding publish terminate
  send s type body header =
      if s.closed
      then (some session_closed, s)
      else if is_terminator type
      then terminate s type body header
      else publish s type body header

  pub complete : StreamSession → String → Option SessionError × StreamSession
  unfolding terminate
  complete s payload = terminate s "complete" payload []

  pub fail : StreamSession → String → Option SessionError × StreamSession
  unfolding terminate
  fail s payload = terminate s "error" payload []

  -- A message on the cancel subject, while it is subscribed.
  pub on_cancel : StreamSession → StreamSession
  on_cancel s = if s.subscribed then record s { cancelled = true } else s

  -- The calls that a handler makes, and the client's cancel.
  pub data Call : Type 0 where
    send_event : String → String → Header → Call
    complete_with fail_with : String → Call
    cancel : Call

  pub call : StreamSession → Call → StreamSession
  unfolding send complete fail on_cancel
  call s (send_event type body header) = (send s type body header).1
  call s (complete_with payload) = (complete s payload).1
  call s (fail_with payload) = (fail s payload).1
  call s cancel = on_cancel s

  pub calls : StreamSession → List Call → StreamSession
  unfolding call
  calls s [] = s
  calls s (c ∷ cs) = calls (call s c) cs
