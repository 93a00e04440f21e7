-- ===== src/NatsChat/Access.antt =====
-- authorizeIDT of trigger.go: the user and the account of a request, by its headers and its token.
pub mod Laws
use ai_agent_go_service.Prelude.{
  String, ◌==◌, Bool, true, false, not, ◌||◌, Option, some, none, if◌then◌else◌, Result, ok, err,
}
use Prim.Native.String.{◌++◌ as concat}
use ai_agent_go_service.Engine.Access.{IndexStatus, no_access, bound, unbound, IndexAccess}
use ai_agent_go_service.Idt.Validator.{
  Validator, Verdict, denied, Identity, Validated, validate_if_enabled, validate_for_function,
}

-- How the token of a request is checked: by the function of the service, by that of the index, or
-- not at all, since the index has no function.
pub data IdtTarget : Type 0 where
  app_default index_unbound : IdtTarget
  index_function : String → IdtTarget

-- A reply that is an error: nats-service's validation and server errors, with a code, a message and
-- a status.
pub data ServiceError : Type 0 where
  validation_err server_err : String → String → String → ServiceError

-- Who asks, by the headers or by Identity.
pub record Asker : Type 0 where
  pub user : String
  pub account : String

pub record Authorized (W : Type 0) : Type 0 where
  pub outcome : Result ServiceError Asker
  pub idt_validator : Option Validator
  pub world : W

target_of : (String → String) → IndexStatus → IndexAccess → IdtTarget
target_of trim bound a =
    if trim a.function_id == "" then index_unbound else index_function a.function_id
target_of trim unbound a = index_unbound
target_of trim no_access a = app_default

unfoldable pub current_idt_target : (String → String) → IndexAccess → IdtTarget
unfolding target_of
current_idt_target trim a = target_of trim a.status a

-- Identity's answer replaces a header, unless it is empty.
unfoldable pub override : String → String → String
override validated header = if validated == "" then header else validated

admitted : Asker → Verdict → Result ServiceError Asker
unfolding override
admitted asker x =
    if x.allow
    then ok (record {
      user = override x.user_id asker.user;
      account = override x.account_id asker.account;
    })
    else err (validation_err "bad-request" (concat "IDT validation failed: " x.deny_reason) "403")

module _ {W : Type 0} (identity : Identity W) where
  unfoldable pub validate_token : String → Validator → String → IdtTarget → W → Validated W
  validate_token workflow_id v tok index_unbound w = record {
    verdict = denied "INDEX_FUNCTION_UNBOUND";
    validator = v;
    world = w;
  }
  validate_token workflow_id v tok (index_function fn) w = validate_for_function identity v tok fn w
  validate_token workflow_id v tok app_default w = validate_if_enabled identity v tok workflow_id w

  enforced : Asker → Validated W → Authorized W
  unfolding admitted
  enforced asker r = record {
    outcome = admitted asker r.verdict;
    idt_validator = some r.validator;
    world = r.world;
  }

  -- While it only observes, the check runs beside the request, and changes nothing of it.
  observed : Bool → String → Validator → String → IdtTarget → Asker → W → Authorized W
  unfolding enforced
  observed true workflow_id v tok target asker w = record {
    outcome = ok asker;
    idt_validator = some v;
    world = w;
  }
  observed false workflow_id v tok target asker w =
      enforced asker (validate_token workflow_id v tok target w)

  unfoldable pub authorize_idt :
      String → Option Validator → String → IdtTarget → Asker → W → Authorized W
  unfolding observed
  authorize_idt workflow_id none tok target asker w = record {
    outcome = ok asker;
    idt_validator = none;
    world = w;
  }
  authorize_idt workflow_id (some v) tok target asker w =
      if not v.enabled
      then record { outcome = ok asker; idt_validator = some v; world = w }
      else observed v.observe_only workflow_id v tok target asker w
