-- ===== src/Bedrock/Probe.antt =====
-- autoupdate.go: the probe of a model, an invocation that forces a call of the tool `echo`. What the
-- probe meets of the outside, with its timeout, is a world: the payload, the invocation, the context
-- and the `select` of emit are functions of it.
pub mod Laws
pub mod Examples
use ai_agent_go_service.Prelude.{
  String, ◌==◌, Bool, true, false, not, ◌||◌, List, [], ◌∷◌, ◌++◌, Option, none, some, Result, ok,
  err, if◌then◌else◌,
}
use ai_agent_go_service.Agent.Types.{LlmToolUse, LlmEvent, tool_use_stop}
use ai_agent_go_service.Bedrock.Chunks.{Decoder, Accum, handle_anthropic_chunk}

abbrev pub probe_tool_name : String
probe_tool_name = "echo"

pub data ContractViolation : Type 0 where
  other_tool_called invalid_input : String → ContractViolation
  no_tool_use : ContractViolation

pub data ProbeError : Type 0 where
  caused : String → ProbeError
  unexpected_event : String → ProbeError
  probe_contract : ContractViolation → ProbeError

-- A member of the response stream: the bytes of a chunk, or a member of another type.
pub data Member : Type 0 where
  chunk : String → Member
  other_member : String → Member

-- The members until the channel closes, and what `Err` gives then.
pub record ResponseStream : Type 0 where
  pub members : List Member
  pub stream_err : Option String

pub record Outside (W : Type 0) : Type 0 where
  pub decoder : Decoder
  pub is_valid_json : String → Bool
  pub build_payload : String → Result String String
  pub invoke : String → String → W → Result String ResponseStream × W
  pub ctx_err : W → Option String × W
  pub is_sent : W → Bool × W

-- The first tool use that was completed decides.
verify_tool_use : (String → Bool) → LlmToolUse → Option ContractViolation
verify_tool_use is_valid tu =
    if not (tu.name == probe_tool_name)
    then some (other_tool_called tu.name)
    else if tu.input == "" || not (is_valid tu.input)
    then some (invalid_input tu.input)
    else none

unfoldable pub verify_tool_probe : (String → Bool) → List LlmEvent → Option ContractViolation
unfolding verify_tool_use
verify_tool_probe is_valid [] = some no_tool_use
verify_tool_probe is_valid (tool_use_stop tu ∷ evs) = verify_tool_use is_valid tu
verify_tool_probe is_valid (_ ∷ evs) = verify_tool_probe is_valid evs

module _ {W : Type 0} (outside : Outside W) where
  open outside use {decoder, is_valid_json, build_payload, invoke, ctx_err, is_sent}

  -- The `select` of emit drops the event if the context is done.
  sent : Bool × W → LlmEvent → List LlmEvent → List LlmEvent × W
  sent (true, w) ev events = (events ++ ev ∷ [], w)
  sent (false, w) ev events = (events, w)

  unfoldable pub emit : Option LlmEvent → List LlmEvent → W → List LlmEvent × W
  unfolding sent
  emit none events w = (events, w)
  emit (some ev) events w = sent (is_sent w) ev events

  unless_done :
      Option String × W
      → (W → Result ProbeError (List LlmEvent) × W)
      → Result ProbeError (List LlmEvent) × W
  unless_done (some e, w) go = (err (caused e), w)
  unless_done (none, w) go = go w

  after_chunk :
      Result String (Accum × Option LlmEvent)
      → List LlmEvent
      → W
      → (Accum → List LlmEvent → W → Result ProbeError (List LlmEvent) × W)
      → Result ProbeError (List LlmEvent) × W
  unfolding emit
  after_chunk (err e) events w go = (err (caused e), w)
  after_chunk (ok (accum, ev)) events w go = let (evs, w') = emit ev events w in go accum evs w'

  unfoldable pub collect_members :
      List Member → Accum → List LlmEvent → W → Result ProbeError (List LlmEvent) × W
  unfolding unless_done after_chunk
  collect_members [] accum events w = (ok events, w)
  collect_members (other_member t ∷ ms) accum events w =
      unless_done (ctx_err w) (λ w'. (err (unexpected_event t), w'))
  collect_members (chunk raw ∷ ms) accum events w = unless_done (ctx_err w) (λ w'.
      after_chunk (handle_anthropic_chunk decoder raw accum) events w'
        (λ accum' events' w''. collect_members ms accum' events' w''))

  drained :
      Option String → Result ProbeError (List LlmEvent) × W → Result ProbeError (List LlmEvent) × W
  drained e (err e', w) = (err e', w)
  drained (some e) (ok events, w) = (err (caused e), w)
  drained none (ok events, w) = (ok events, w)

  unfoldable pub collect_probe_events : ResponseStream → W → Result ProbeError (List LlmEvent) × W
  unfolding collect_members drained
  collect_probe_events s w = drained s.stream_err (collect_members s.members [] [] w)

  in_contract : Option ContractViolation → Option ProbeError
  in_contract none = none
  in_contract (some v) = some (probe_contract v)

  judge : Result ProbeError (List LlmEvent) × W → Option ProbeError × W
  unfolding verify_tool_probe in_contract
  judge (err e, w) = (some e, w)
  judge (ok events, w) = (in_contract (verify_tool_probe is_valid_json events), w)

  invoked : Result String ResponseStream × W → Option ProbeError × W
  unfolding collect_probe_events judge
  invoked (err e, w) = (some (caused e), w)
  invoked (ok s, w) = judge (collect_probe_events s w)

  with_payload : Result String String → String → W → Option ProbeError × W
  unfolding invoked
  with_payload (err e) id w = (some (caused e), w)
  with_payload (ok payload) id w = invoked (invoke id payload w)

  unfoldable pub validate_model : String → W → Option ProbeError × W
  unfolding with_payload
  validate_model id w = with_payload (build_payload id) id w
