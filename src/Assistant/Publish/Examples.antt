-- ===== src/Assistant/Publish/Examples.antt =====
-- Two workflows of one name, and one whose index has no function.
use ai_agent_go_service.Prelude.{
  ◌≡◌, refl, String, ◌==◌, true, false, [], ◌∷◌, some, none, ok, if◌then◌else◌,
}
use ai_agent_go_service.Engine.Access.{IndexAccess, no_access, unbound}
use ai_agent_go_service.Assistant.Publish.{
  nats_chat, Workflow, Config, duplicate_name, unknown_cause, Runtime, names, Services, eligibility,
  agent_access, build_card_spec, publish, start,
}
use ai_agent_go_service.Assistant.Publish.Laws.{Sound, start-Sound}

abbrev open_access : IndexAccess
open_access = record { status = no_access; index = ""; function_id = ""; cause = none }

abbrev closed_access : IndexAccess
closed_access = record { status = unbound; index = ""; function_id = ""; cause = none }

abbrev chat_of : String → String → IndexAccess → Workflow
chat_of id name access = record {
  id = id;
  description = "";
  manifest = name;
  trigger = nats_chat (record {
    response_mode = "streaming";
    allows_response_mode_override = false;
    chat_subject = "chat";
  });
  nodes = record { node_id = "agent"; client_only = false } ∷ [];
  index_access = access;
}

abbrev services : Services
services = record {
  workflow = λ id. some (
      chat_of id (if id == "c" then "other" else "sales")
        (if id == "c" then closed_access else open_access));
  unmarshal_manifest = λ s.
      ok (record { enabled = none; name = s; display_name = ""; description = ""; version = "" });
  name_matches = λ s. true;
  trim = λ s. s;
  agent_new = λ s. none;
  agent_start = λ s. none;
}

abbrev cfg : Config
cfg = record { app_id = "app"; function_id = "fn"; default_version = "1" }

abbrev empty : Runtime
empty = record { agents = []; skipped = [] }

start-Sound_example : Sound services cfg (start services cfg ("a" ∷ "b" ∷ "c" ∷ []) empty)
start-Sound_example = start-Sound services cfg ("a" ∷ "b" ∷ "c" ∷ []) empty (refl, tt)

publishes_one : names (start services cfg ("a" ∷ "b" ∷ "c" ∷ []) empty).agents ≡ "sales" ∷ []
unfolding start publish eligibility build_card_spec agent_access
publishes_one = refl

skips_two :
    (start services cfg ("a" ∷ "b" ∷ "c" ∷ []) empty).skipped
    ≡ ("c", unknown_cause) ∷ ("b", duplicate_name "sales") ∷ []
unfolding start publish eligibility build_card_spec agent_access
skips_two = refl
