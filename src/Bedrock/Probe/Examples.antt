-- ===== src/Bedrock/Probe/Examples.antt =====
-- A model that calls the tool in two pieces, and models that answer otherwise. The bytes of a chunk
-- are spelled in this test as its type; the world is a clock, and no context is done.
use ai_agent_go_service.Prelude.{
  ℕ, String, ◌==◌, ◌≡◌, refl, true, List, [], ◌∷◌, none, some, ok, if◌then◌else◌,
}
use ai_agent_go_service.Prelude.Int.{pos}
use ai_agent_go_service.Bedrock.Chunks.{ContentBlockDelta, Decoder, handle_anthropic_chunk}
use ai_agent_go_service.Bedrock.Probe.{
  other_tool_called, no_tool_use, probe_contract, unexpected_event, Member, chunk, other_member,
  Outside, validate_model,
}
use ai_agent_go_service.Bedrock.Probe.Laws.{Passed, validate_model-Passed}

abbrev piece : String → ContentBlockDelta
piece s = record { index = pos 0; type = "input_json_delta"; text = ""; partial_json = s }

abbrev decoder : String → Decoder
decoder tool = record {
  type_of = λ raw.
      if raw == "{"
      then ok "content_block_delta"
      else if raw == "}"
      then ok "content_block_delta"
      else ok raw;
  as_start = λ raw. ok (record { index = pos 0; type = "tool_use"; id = "c1"; name = tool });
  as_delta = λ raw. ok (piece raw);
  as_stop = λ raw. ok (pos 0);
  as_message_delta = λ raw. ok "tool_use";
}

abbrev model : String → List Member → Outside ℕ
model tool ms = record {
  decoder = decoder tool;
  is_valid_json = λ s. s == "{}";
  build_payload = λ id. ok id;
  invoke = λ id payload w. (ok (record { members = ms; stream_err = none }), w);
  ctx_err = λ w. (none, w);
  is_sent = λ w. (true, w);
}

abbrev call : List Member
call =
    chunk "message_start"
    ∷ chunk "content_block_start"
    ∷ chunk "{"
    ∷ chunk "}"
    ∷ chunk "content_block_stop"
    ∷ chunk "message_delta"
    ∷ []

other_tool :
    validate_model (model "search" call) "m" 0
    ≡ (some (probe_contract (other_tool_called "search")), 0)
unfolding validate_model handle_anthropic_chunk
other_tool = refl

no_tool :
    validate_model (model "echo" (chunk "message_start" ∷ [])) "m" 0
    ≡ (some (probe_contract no_tool_use), 0)
unfolding validate_model handle_anthropic_chunk
no_tool = refl

strange_member :
    validate_model (model "echo" (other_member "T" ∷ [])) "m" 0 ≡ (some (unexpected_event "T"), 0)
unfolding validate_model handle_anthropic_chunk
strange_member = refl

echo_passes : (validate_model (model "echo" call) "m" 0).0 ≡ none
unfolding validate_model handle_anthropic_chunk
echo_passes = refl

validate_model-Passed_example : Passed (model "echo" call) "m" 0
validate_model-Passed_example = validate_model-Passed (model "echo" call) "m" 0 echo_passes
