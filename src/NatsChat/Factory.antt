-- ===== src/NatsChat/Factory.antt =====
-- Factory of factory.go: the settings of a chat trigger, with their defaults.
use ai_agent_go_service.Prelude.{
  ◌≡◌, String, ◌==◌, Bool, true, not, ◌&&◌, ◌||◌, Option, some, none, if◌then◌else◌, arith, Result,
  ok, err,
}
use ai_agent_go_service.Prelude.Int.{ℤ, pos, eqb_ℤ}
use ai_agent_go_service.NatsChat.Trigger.{IdentitySource, TriggerConfig, resolve_response_mode}

-- A config as it is decoded; an absent text is empty.
pub record RawChatConfig : Type 0 where
  pub raw_response_mode : String
  pub raw_nats_user_header : String
  pub raw_user_header : String
  pub raw_account_header : String
  pub raw_user_name_header : String
  pub raw_time_zone_header : String
  pub raw_require_account : Option Bool
  pub raw_require_user : Option Bool
  pub raw_request_timeout_seconds : ℤ
  pub raw_allow_response_mode_override : Bool

pub data ChatConfigError : Type 0 where
  chat_config_undecodable : String → ChatConfigError
  bad_response_mode : String → ChatConfigError

header_or : String → String → String
header_or h default = if h == "" then default else h

required : Option Bool → Bool
required none = true
required (some b) = b

source_of : RawChatConfig → IdentitySource
unfolding header_or required
source_of r = record {
  nats_user_header = header_or r.raw_nats_user_header "_User_Id";
  user_header = header_or r.raw_user_header "X-User-Id";
  account_header = header_or r.raw_account_header "X-Account-Id";
  user_name_header = header_or r.raw_user_name_header "X-User-Name";
  time_zone_header = header_or r.raw_time_zone_header "X-Time-Zone";
  require_account = required r.raw_require_account;
  require_user = required r.raw_require_user;
}

-- The config, and the request timeout in seconds.
unfoldable pub chat_factory :
    Result String RawChatConfig → Result ChatConfigError (TriggerConfig × ℤ)
unfolding source_of
chat_factory (err e) = err (chat_config_undecodable e)
chat_factory (ok r) =
    if not (r.raw_response_mode == "streaming") && not (r.raw_response_mode == "single")
    then err (bad_response_mode r.raw_response_mode)
    else ok (
      record {
        response_mode = r.raw_response_mode;
        identity_source = source_of r;
        allow_response_mode_override = r.raw_allow_response_mode_override;
      },
      if eqb_ℤ r.raw_request_timeout_seconds (pos 0)
          then pos 600
          else r.raw_request_timeout_seconds,
    )

abbrev IsMode : String → Type 0
IsMode m = (m == "streaming" || m == "single") ≡ true

chat_factory-IsMode :
    (r : Result String RawChatConfig) (cfg : TriggerConfig) (timeout : ℤ)
    → chat_factory r ≡ ok (cfg, timeout)
    → IsMode cfg.response_mode
unfolding chat_factory
chat_factory-IsMode (err e) cfg timeout h = absurd (ground (arith, h))
chat_factory-IsMode (ok r) cfg timeout h = ground (arith, h)

-- Under a config that was accepted a request has one of the two modes, whatever its body asks for.
resolve_response_mode-IsMode :
    (r : Result String RawChatConfig) (cfg : TriggerConfig) (timeout : ℤ) (requested mode : String)
    → chat_factory r ≡ ok (cfg, timeout)
    → resolve_response_mode cfg requested ≡ ok mode
    → IsMode mode
unfolding resolve_response_mode
resolve_response_mode-IsMode r cfg timeout requested mode h g =
    ground (arith, chat_factory-IsMode r cfg timeout h, g)
