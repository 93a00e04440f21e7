-- ===== src/NatsChat/Trigger.antt =====
-- handle of trigger.go: one chat request, from its headers to its reply. The executor, the stream
-- of natsstream and encoding/json are a record of the caller.
pub mod Laws
pub mod Single
pub mod Examples
use ai_agent_go_service.Prelude.{
  ℕ, String, ◌==◌, Bool, true, false, not, ◌&&◌, ◌||◌, List, [], ◌∷◌, ◌++◌, Option, some, none,
  if◌then◌else◌, Result, ok, err,
}
use Prim.Native.String.{◌++◌ as concat}
use ai_agent_go_service.Engine.Access.{IndexAccess}
use ai_agent_go_service.Transport.Protocol.{Header, get_header}
use ai_agent_go_service.Idt.Validator.{Validator, Identity}
use ai_agent_go_service.NatsChat.Collect.{
  SingleResult, PayloadCodec, CollectSink, new_collect_sink, SinkCall, collect,
}
use ai_agent_go_service.NatsChat.Access.{
  ServiceError, validation_err, server_err, Asker, Authorized, current_idt_target, authorize_idt,
}

pub record IdentitySource : Type 0 where
  pub nats_user_header : String
  pub user_header : String
  pub account_header : String
  pub user_name_header : String
  pub time_zone_header : String
  pub require_account : Bool
  pub require_user : Bool

pub record TriggerConfig : Type 0 where
  pub response_mode : String
  pub identity_source : IdentitySource
  pub allow_response_mode_override : Bool

pub record ChatTrigger : Type 0 where
  pub cfg : TriggerConfig
  pub workflow_id : String
  pub idt_validator : Option Validator
  pub has_sink : Bool
  pub access : IndexAccess

pub record ChatRequestBody : Type 0 where
  pub message : String
  pub session_id : String
  pub response_mode : String

pub record NatsMessage : Type 0 where
  pub message_id : String
  pub header : Header
  pub body : String

-- identity.Identity
pub record Person : Type 0 where
  pub nats_user_id : String
  pub user_id : String
  pub account_id : String
  pub user_name : String
  pub time_zone : String

pub record TriggerEvent : Type 0 where
  pub request_id : String
  pub person : Person
  pub session : String
  pub raw_body : String
  pub headers : Header

-- The other service's stream replies later by itself.
pub data Reply : Type 0 where
  refused_with : ServiceError → Reply
  streams : Reply
  replied_with : String → Reply

-- What one request does: the events that it hands to the executor, and an error that it reports on
-- its stream.
pub data Effect : Type 0 where
  emitted : TriggerEvent → Effect
  stream_failed : String → String → Effect

-- `emit` is Emit of the executor with a collecting sink, by the calls that it makes of the sink and
-- its error; `emit_streaming` is the same with a stream; `ctx_expired` says whether the request's
-- context is done, and `await_done` what the last select of a single request meets, a result or
-- the end of its context.
pub record ChatHost (W : Type 0) : Type 0 where
  pub identity : Identity W
  pub trim : String → String
  pub codec : PayloadCodec
  pub unmarshal_body : String → Result String ChatRequestBody
  pub new_uuid : W → String × W
  pub open_stream : NatsMessage → String → W → Option String × W
  pub emit : TriggerEvent → W → List SinkCall × Option String × W
  pub emit_streaming : TriggerEvent → W → Option String × W
  pub ctx_expired : W → Bool × W
  pub await_done : W → Option SingleResult × W

pub record Handled (W : Type 0) : Type 0 where
  pub reply : Reply
  pub effects : List Effect
  pub trigger : ChatTrigger
  pub world : W

abbrev pub bad_request : String → String → Reply
bad_request code message = refused_with (validation_err code message "400")

-- The mode of one request; that of its body counts only where the workflow lets it.
unfoldable pub resolve_response_mode : TriggerConfig → String → Result String String
resolve_response_mode cfg requested =
    if not cfg.allow_response_mode_override || requested == ""
    then ok cfg.response_mode
    else if not (requested == "streaming") && not (requested == "single")
    then err "responseMode must be \"streaming\" or \"single\""
    else ok requested

module _ {W : Type 0} (host : ChatHost W) (t : ChatTrigger) (msg : NatsMessage) where
  open host use {
    trim, codec, unmarshal_body, new_uuid, open_stream, emit, emit_streaming, ctx_expired,
    await_done,
  }

  source_header : (IdentitySource → String) → String
  source_header field = get_header (field t.cfg.identity_source) msg.header

  abbrev stop : Reply → W → Handled W
  stop reply w = record { reply = reply; effects = []; trigger = t; world = w }

  -- toReply: a run that was cancelled for want of time has timed out.
  to_reply : SingleResult → Bool → Reply
  to_reply r expired =
      if r.err_code == ""
      then replied_with r.body
      else if r.err_code == "timeout" || (r.err_code == "cancelled" && expired)
      then refused_with (server_err "timeout" "request timeout" "504")
      else refused_with (server_err r.err_code r.err_message "500")

  awaited : Option SingleResult × W → Reply × W
  unfolding to_reply
  awaited (none, w) = (refused_with (server_err "timeout" "request timeout" "504"), w)
  awaited (some r, w) = let (expired, w') = ctx_expired w in (to_reply r expired, w')

  -- The result that the sink has, before the executor's error, before one that comes late.
  single_reply : List SingleResult → Option String → W → Reply × W
  unfolding awaited to_reply
  single_reply (r ∷ rs) e w = let (expired, w') = ctx_expired w in (to_reply r expired, w')
  single_reply [] (some e) w = (refused_with (server_err "executor-failed" e "500"), w)
  single_reply [] none w = awaited (await_done w)

  unfoldable pub handle_single : TriggerEvent → W → Handled W
  unfolding single_reply
  handle_single evt w =
      let (calls, e, w1) = emit evt w in
      let (reply, w2) =
        single_reply (collect codec calls (new_collect_sink evt.session)).done e w1 in
      record { reply = reply; effects = emitted evt ∷ []; trigger = t; world = w2 }

  fail_if : Option String → List Effect
  fail_if none = []
  fail_if (some e) = stream_failed "executor-failed" e ∷ []

  opened : TriggerEvent → Option String × W → Handled W
  unfolding fail_if
  opened evt (some e, w) = stop (refused_with (server_err "stream-init-failed" e "500")) w
  opened evt (none, w) =
      let (e, w') = emit_streaming evt w in
      record { reply = streams; effects = emitted evt ∷ fail_if e; trigger = t; world = w' }

  unfoldable pub handle_streaming : TriggerEvent → W → Handled W
  unfolding opened
  handle_streaming evt w = opened evt (open_stream msg evt.session w)

  by_mode : Result String String → TriggerEvent → W → Handled W
  unfolding handle_streaming handle_single
  by_mode (err e) evt w = stop (bad_request "bad-request" e) w
  by_mode (ok mode) evt w =
      if mode == "streaming" then handle_streaming evt w else handle_single evt w

  event_of : Asker → String → TriggerEvent
  unfolding source_header
  event_of asker session = record {
    request_id = msg.message_id;
    person = record {
      nats_user_id = source_header (λ s. s.nats_user_header);
      user_id = asker.user;
      account_id = asker.account;
      user_name = source_header (λ s. s.user_name_header);
      time_zone = source_header (λ s. s.time_zone_header);
    };
    session = session;
    raw_body = msg.body;
    headers = msg.header;
  }

  -- The session of the body, or a new one.
  session_of : ChatRequestBody → W → String × W
  session_of body w = if body.session_id == "" then new_uuid w else (body.session_id, w)

  with_body : Asker → Result String ChatRequestBody → W → Handled W
  unfolding session_of by_mode event_of
  with_body asker (err e) w = stop (bad_request "bad-body" e) w
  with_body asker (ok body) w =
      if body.message == ""
      then stop (bad_request "bad-request" "message required") w
      else (let (session, w') = session_of body w in
          if not t.has_sink
          then stop (refused_with (server_err "executor-failed" "trigger sink not yet wired" "500"))
              w'
          else by_mode (resolve_response_mode t.cfg body.response_mode) (event_of asker session) w')

-- The validator's cache may have changed; it goes back into the trigger.
abbrev pub with_validator : ChatTrigger → Option Validator → ChatTrigger
with_validator t v = record t { idt_validator = v }

module _ {W : Type 0} (host : ChatHost W) where
  admit : ChatTrigger → NatsMessage → Result ServiceError Asker → W → Handled W
  unfolding with_body
  admit t msg (err e) w = record { reply = refused_with e; effects = []; trigger = t; world = w }
  admit t msg (ok asker) w = with_body host t msg asker (host.unmarshal_body msg.body) w

  -- The asker by the headers.
  pub header_asker : ChatTrigger → NatsMessage → Asker
  unfolding source_header
  header_asker t msg = record {
    user = source_header host t msg (λ s. s.user_header);
    account = source_header host t msg (λ s. s.account_header);
  }

  checked : ChatTrigger → NatsMessage → W → Handled W
  unfolding admit header_asker
  checked t msg w =
      let r =
        authorize_idt host.identity t.workflow_id t.idt_validator
          (get_header "X-TRX-IDT" msg.header) (current_idt_target host.trim t.access)
          (header_asker t msg) w in
      admit (with_validator t r.idt_validator) msg r.outcome r.world

  unfoldable pub handle : ChatTrigger → NatsMessage → W → Handled W
  unfolding checked header_asker
  handle t msg w =
      if t.cfg.identity_source.require_account && (header_asker t msg).account == ""
      then record {
        reply = bad_request "account-id-missing" "account id header missing";
        effects = [];
        trigger = t;
        world = w;
      }
      else if t.cfg.identity_source.require_user && (header_asker t msg).user == ""
      then record {
        reply = bad_request "USER_ID_MISSING" "user id header missing";
        effects = [];
        trigger = t;
        world = w;
      }
      else checked t msg w

-- SetIndexAccess and Subscribe, before the first request.
abbrev pub set_index_access : IndexAccess → ChatTrigger → ChatTrigger
set_index_access a t = record t { access = a }

abbrev pub subscribe : ChatTrigger → ChatTrigger
subscribe t = record t { has_sink = true }
