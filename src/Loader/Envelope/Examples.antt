-- ===== src/Loader/Envelope/Examples.antt =====
-- A small chat workflow.
use ai_agent_go_service.Prelude.{◌≡◌, [], ◌∷◌, ◌↔◌}
use ai_agent_go_service.Prelude.Int.{pos}
use ai_agent_go_service.Loader.Envelope.{RawWorkflow, validate_envelope}
use ai_agent_go_service.Loader.Envelope.Laws.{IsEnvelope, validate_envelope_iff}

abbrev chat : RawWorkflow
chat = record {
  id = "chat";
  version = pos 1;
  trigger = "in";
  nodes =
      record { id = "in"; type = "trigger/nats-chat"; config = ""; retry = "" }
      ∷ record { id = "agent"; type = "ai/agent"; config = "{}"; retry = "" }
      ∷ [];
  connections =
      record {
        from = record { node = "in"; port = "main" };
        to = record { node = "agent"; port = "main" };
      }
      ∷ [];
}

validate_envelope_iff_example : (validate_envelope chat ≡ []) ↔ IsEnvelope chat
validate_envelope_iff_example = validate_envelope_iff chat
