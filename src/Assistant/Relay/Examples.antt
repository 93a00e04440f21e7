-- ===== src/Assistant/Relay/Examples.antt =====
-- A stream that breaks off after a delta, and one that completes.
use ai_agent_go_service.Prelude.{◌≡◌, refl, [], ◌∷◌, none}
use ai_agent_go_service.Assistant.Relay.{
  started, delta, completed, Wire, new_relay, apply, finish_relay, relay_all, text_out, done_out,
}
use ai_agent_go_service.Assistant.Relay.Laws.{EndsOnce, relay-EndsOnce}

abbrev wire : Wire
wire = record {
  code_upstream = 502;
  stop_max_tokens = "length";
  stop_end_turn = "end";
  decode_text = λ s. none;
  decode_fields = λ s. none;
  trim = λ s. s;
}

relay-EndsOnce_example :
    EndsOnce (finish_relay wire none (relay_all wire (started ∷ delta "hi" ∷ []) new_relay)).emitted
relay-EndsOnce_example = relay-EndsOnce wire (started ∷ delta "hi" ∷ []) none

completes :
    (finish_relay wire none (
      relay_all wire (started ∷ completed "hi" "max_tokens" ∷ delta "late" ∷ []) new_relay)).emitted
    ≡ done_out "length" ∷ text_out "hi" ∷ []
unfolding relay_all apply finish_relay
completes = refl
