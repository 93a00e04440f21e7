-- ===== src/Assistant/Relay.antt =====
-- relay.go: the events of the engine's stream become calls of the other service's stream. Also the
-- two checks that stand before a consult, of relay.go and access.go.
pub mod Laws
pub mod Examples
use ai_agent_go_service.Prelude.{
  ℕ, suc, String, ◌==◌, Bool, true, false, not, ◌&&◌, ◌||◌, List, [], ◌∷◌, Option, some, none,
  if◌then◌else◌, Result, ok, err,
}
use Prim.Native.String.{◌++◌ as concat}
use ai_agent_go_service.Json.{Value, text, Fields, get}
use ai_agent_go_service.Prelude.{map}

-- An event with its payload decoded; a field that does not decode has its zero value.
pub data EngineEvent : Type 0 where
  started : EngineEvent
  delta thought : String → EngineEvent
  tool_call : String → String → String → EngineEvent
  tool_result : String → String → Bool → EngineEvent
  attachment : String → EngineEvent
  completed failed : String → String → EngineEvent
  other_event : EngineEvent

-- The methods of the emitter.
pub data Emitted : Type 0 where
  text_out status_out data_out : String → Emitted
  tool_use_out : String → String → String → Emitted
  tool_result_out : String → String → String → String → Emitted
  done_out : String → Emitted
  error_out : String → ℕ → Emitted

-- The constants of the other service, and what decodes JSON and trims texts.
pub record Wire : Type 0 where
  pub code_upstream : ℕ
  pub stop_max_tokens : String
  pub stop_end_turn : String
  pub decode_text : String → Option String
  pub decode_fields : String → Option Fields
  pub trim : String → String

-- `emitted` has the latest call first.
pub record Relay : Type 0 where
  pub tool_names : String → String
  pub saw_delta : Bool
  pub done : Bool
  pub n : ℕ
  pub emitted : List Emitted

abbrev pub new_relay : Relay
new_relay = record { tool_names = λ id. ""; saw_delta = false; done = false; n = 0; emitted = [] }

abbrev pub emit : Emitted → Relay → Relay
emit e r = record r { emitted = e ∷ r.emitted }

abbrev see_delta : Relay → Relay
see_delta r = record r { saw_delta = true }

abbrev terminate : Relay → Relay
terminate r = record r { done = true }

abbrev pub counted : Relay → Relay
counted r = record r { n = suc r.n }

name_tool : String → String → Relay → Relay
name_tool id name r = record r { tool_names = λ i. if i == id then name else r.tool_names i }

module _ (wire : Wire) where
  open wire use {code_upstream, stop_max_tokens, stop_end_turn, decode_text, decode_fields, trim}

  map_stop : String → String
  map_stop stop = if stop == "max_tokens" then stop_max_tokens else stop_end_turn

  raw_to_text : String → String
  raw_to_text raw = if raw == "" then "" else elim (decode_text raw) [ some s ↦ s | none ↦ raw ]

  url_in : Fields → List String → String
  url_in m [] = ""
  url_in m (k ∷ ks) =
      let rest = url_in m ks in
      elim (get k m) [ some (text s) ↦ if s == "" then rest else s | _ ↦ rest ]

  attachment_url : String → String
  unfolding url_in
  attachment_url raw = elim (decode_fields raw) [
    | none ↦ ""
    | some m ↦ url_in m ("url" ∷ "imageUrl" ∷ [])
  ]

  emit_if : Bool → Emitted → Relay → Relay
  emit_if true e r = emit e r
  emit_if false e r = r

  delta_if : Bool → String → Relay → Relay
  delta_if true s r = emit (text_out s) (see_delta r)
  delta_if false s r = r

  error_message : String → String → String
  error_message code message =
      let msg = trim (concat code (concat ": " message)) in
      if msg == ":" then "workflow error" else msg

  -- What one event does to a relay that is not done.
  relayed : EngineEvent → Relay → Relay
  unfolding emit_if delta_if name_tool raw_to_text attachment_url map_stop error_message
  relayed started r = r
  relayed (delta s) r = delta_if (not (s == "")) s r
  relayed (thought s) r = emit_if (not (s == "")) (status_out s) r
  relayed (tool_call id name input) r = emit (tool_use_out id name input) (name_tool id name r)
  relayed (tool_result id output is_error) r =
      let res = raw_to_text output in
      emit (tool_result_out id (r.tool_names id) res (if is_error then res else "")) r
  relayed (attachment payload) r =
      let u = attachment_url payload in
      emit_if (not (u == "")) (text_out (concat "\n" (concat u "\n"))) (emit (data_out payload) r)
  relayed (completed final_text stop) r = terminate (
      emit (done_out (map_stop stop))
        (emit_if (not r.saw_delta && not (final_text == "")) (text_out final_text) r))
  relayed (failed code message) r =
      terminate (emit (error_out (error_message code message) code_upstream) r)
  relayed other_event r = r

  unless_done : Bool → EngineEvent → Relay → Relay
  unfolding relayed
  unless_done true ev r = r
  unless_done false ev r = relayed ev (counted r)

  unfoldable pub apply : EngineEvent → Relay → Relay
  unfolding unless_done
  apply ev r = unless_done r.done ev r

  ended_message : Option String → String
  ended_message none = "workflow stream ended without completion"
  ended_message (some e) = concat "workflow stream ended without completion: " e

  finish_if : Bool → Option String → Relay → Relay
  unfolding ended_message
  finish_if true e r = r
  finish_if false e r = terminate (emit (error_out (ended_message e) code_upstream) r)

  unfoldable pub finish_relay : Option String → Relay → Relay
  unfolding finish_if
  finish_relay e r = finish_if r.done e r

  -- The loop of a consult over the engine's channel.
  unfoldable pub relay_all : List EngineEvent → Relay → Relay
  relay_all [] r = r
  relay_all (ev ∷ evs) r = relay_all evs (apply ev r)

-- The bridge's own check of an identity.
unfoldable pub gate : (String → String) → Bool → String → String → Bool → Result String Unit
gate trim verified account user strict =
    if strict && not verified
    then err "identity not verified"
    else if trim account == "" || trim user == ""
    then err "identity did not resolve account and user"
    else ok tt
