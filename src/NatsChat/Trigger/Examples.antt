-- ===== src/NatsChat/Trigger/Examples.antt =====
-- A service with one granted token, and requests with and without it.
use ai_agent_go_service.Prelude.{
  ℕ, ◌+◌, ◌≡◌, refl, String, ◌==◌, true, false, List, [], ◌∷◌, some, none, ok,
}
use Prim.Native.String.{◌++◌ as concat}
use ai_agent_go_service.Prelude.Int.{pos}
use ai_agent_go_service.Engine.Access.{IndexAccess, bound}
use ai_agent_go_service.Transport.Protocol.{get_header}
use ai_agent_go_service.Idt.Cache.{cache_key, find, put, evict}
use ai_agent_go_service.Idt.Validator.{
  ValidateResult, Validator, Identity, use_cache, validate, validate_for_function,
}
use ai_agent_go_service.NatsChat.Collect.{
  stream_complete, stream_attachment, StreamEvent, PayloadCodec, SinkCall, sends, closes, send,
  close, collect,
}
use ai_agent_go_service.NatsChat.Access.{
  validation_err, override, validate_token, authorize_idt, current_idt_target,
}
use ai_agent_go_service.NatsChat.Trigger.{
  ChatTrigger, NatsMessage, TriggerEvent, refused_with, replied_with, ChatHost,
  resolve_response_mode, handle_single, handle,
}

abbrev answer_of : String → ValidateResult
answer_of s = record {
  valid = s == "good/claims";
  user_id = "jdoe";
  account_id = "5480";
  function_granted = true;
  reason = some "UNKNOWN";
}

-- Identity grants the function "claims" to the token "good"; the world counts its requests.
abbrev identity : Identity ℕ
identity = record {
  now = λ w. (w, w);
  sha = λ s. s;
  marshal = λ tok agent fn. ok (concat tok (concat "/" fn));
  request = λ subject body timeout w. (ok body, w + 1);
  unmarshal = λ s. ok (answer_of s);
}

abbrev validator : Validator
validator = record {
  enabled = true;
  fail_open = false;
  observe_only = false;
  subject = "auth";
  agent_id = "agent";
  function_id = "app";
  request_timeout = pos 5;
  cache_ttl = 60;
  cache = [];
}

-- The pair of a token and a function that is granted.
abbrev Grants : String → String → String → String → Type 0
Grants tok fn user account =
    (concat tok (concat "/" fn) ≡ "good/claims") × (user ≡ "jdoe") × (account ≡ "5480")

abbrev access : IndexAccess
access = record { status = bound; index = "claims-*"; function_id = "claims"; cause = none }

abbrev codec : PayloadCodec
codec = record {
  decode_complete = λ s. ok (record { final_text = s; message_stop = "end_turn" });
  decode_error = λ s. record { code = s; message = "" };
  marshal = λ b. ok b.final_text;
}

abbrev end : StreamEvent
end = record { kind = stream_complete; data_raw = "hi" }

abbrev calls : List SinkCall
calls = sends (record { kind = stream_attachment; data_raw = "chart" }) ∷ closes end ∷ []

abbrev host : ChatHost ℕ
host = record {
  identity = identity;
  trim = λ s. s;
  codec = codec;
  unmarshal_body = λ s. ok (record { message = s; session_id = ""; response_mode = "" });
  new_uuid = λ w. ("uuid", w);
  open_stream = λ msg id w. (none, w);
  emit = λ evt w. (calls, none, w);
  emit_streaming = λ evt w. (none, w);
  ctx_expired = λ w. (false, w);
  await_done = λ w. (none, w);
}

abbrev chat_trigger : ChatTrigger
chat_trigger = record {
  cfg = record {
    response_mode = "single";
    identity_source = record {
      nats_user_header = "_User_Id";
      user_header = "X-User-Id";
      account_header = "X-Account-Id";
      user_name_header = "X-User-Name";
      time_zone_header = "X-Time-Zone";
      require_account = true;
      require_user = true;
    };
    allow_response_mode_override = false;
  };
  workflow_id = "chat";
  idt_validator = some validator;
  has_sink = true;
  access = access;
}

abbrev request_with : String → NatsMessage
request_with token = record {
  message_id = "m1";
  header = ("X-Account-Id", "1") ∷ ("X-User-Id", "someone") ∷ ("X-TRX-IDT", token) ∷ [];
  body = "hello";
}

abbrev event : TriggerEvent
event = record {
  request_id = "m1";
  person = record {
    nats_user_id = "";
    user_id = "jdoe";
    account_id = "5480";
    user_name = "";
    time_zone = "";
  };
  session = "uuid";
  raw_body = "hello";
  headers = [];
}

answers_granted : (handle host chat_trigger (request_with "good") 0).reply ≡ replied_with "hi"
unfolding handle get_header authorize_idt current_idt_target validate_token validate_for_function
    validate use_cache cache_key find put evict override resolve_response_mode handle_single collect
    send close
answers_granted = refl

refuses_forged :
    (handle host chat_trigger (request_with "forged") 0).reply
    ≡ refused_with (validation_err "bad-request" "IDT validation failed: UNKNOWN" "403")
unfolding handle get_header authorize_idt current_idt_target validate_token validate_for_function
    validate use_cache cache_key find put evict override resolve_response_mode handle_single collect
    send close
refuses_forged = refl
