-- ===== src/Assistant/Relay/Laws.antt =====
-- A relayed stream ends exactly once.
use ai_agent_go_service.Prelude.{
  ◌≡◌, refl, sym, subst, String, ◌==◌, Bool, true, false, not, ◌&&◌, List, [], ◌∷◌, Option, All,
}
use ai_agent_go_service.Assistant.Relay.{
  EngineEvent, started, delta, thought, tool_call, tool_result, attachment, completed, failed,
  other_event, Emitted, text_out, status_out, data_out, tool_use_out, done_out, error_out, Wire,
  Relay, new_relay, counted, emit, name_tool, attachment_url, emit_if, delta_if, relayed,
  unless_done, apply, finish_if, finish_relay, relay_all,
}

-- The two calls that end the other service's stream.
abbrev pub is_end : Emitted → Bool
is_end (done_out stop) = true
is_end (error_out message code) = true
is_end e = false

abbrev pub Open : List Emitted → Type 0
Open es = All (λ e. is_end e ≡ false) es

-- The latest call ends the stream, and no earlier one did.
abbrev pub EndsOnce : List Emitted → Type 0
EndsOnce [] = ⊥
EndsOnce (e ∷ es) = (is_end e ≡ true) × Open es

-- A relay is done if and only if it has ended the stream.
abbrev pub SoundAt : Bool → List Emitted → Type 0
SoundAt false es = Open es
SoundAt true es = EndsOnce es

module _ (wire : Wire) where
  emit_if-Open :
      (b : Bool) (e : Emitted) (r : Relay)
      → is_end e ≡ false
      → Open r.emitted
      → Open (emit_if wire b e r).emitted
  unfolding emit_if
  emit_if-Open true e r q h = (q, h)
  emit_if-Open false e r q h = h

  SoundAt-Open : (d : Bool) (es : List Emitted) → d ≡ false → Open es → SoundAt d es
  SoundAt-Open d es q h = subst (λ x. SoundAt x es) (sym q) h

  emit_if-SoundAt :
      (b : Bool) (e : Emitted) (r : Relay)
      → is_end e ≡ false
      → r.done ≡ false
      → Open r.emitted
      → SoundAt (emit_if wire b e r).done (emit_if wire b e r).emitted
  unfolding emit_if
  emit_if-SoundAt true e r o q h = SoundAt-Open r.done (e ∷ r.emitted) q (o, h)
  emit_if-SoundAt false e r o q h = SoundAt-Open r.done r.emitted q h

  delta_if-SoundAt :
      (b : Bool) (s : String) (r : Relay)
      → r.done ≡ false
      → Open r.emitted
      → SoundAt (delta_if wire b s r).done (delta_if wire b s r).emitted
  unfolding delta_if
  delta_if-SoundAt true s r q h = SoundAt-Open r.done (text_out s ∷ r.emitted) q (refl, h)
  delta_if-SoundAt false s r q h = SoundAt-Open r.done r.emitted q h

  relayed-SoundAt :
      (ev : EngineEvent) (r : Relay)
      → r.done ≡ false
      → Open r.emitted
      → SoundAt (relayed wire ev r).done (relayed wire ev r).emitted
  unfolding relayed name_tool
  relayed-SoundAt started r q h = SoundAt-Open r.done r.emitted q h
  relayed-SoundAt (delta s) r q h = delta_if-SoundAt (not (s == "")) s r q h
  relayed-SoundAt (thought s) r q h = emit_if-SoundAt (not (s == "")) (status_out s) r refl q h
  relayed-SoundAt (tool_call id name input) r q h =
      SoundAt-Open r.done (tool_use_out id name input ∷ r.emitted) q (refl, h)
  relayed-SoundAt (tool_result id output is_error) r q h = SoundAt-Open r.done _ q (refl, h)
  relayed-SoundAt (attachment payload) r q h =
      emit_if-SoundAt (not (attachment_url wire payload == "")) _ (emit (data_out payload) r) refl q
        (refl, h)
  relayed-SoundAt (completed s stop) r q h =
      (refl, emit_if-Open (not r.saw_delta && not (s == "")) (text_out s) r refl h)
  relayed-SoundAt (failed code message) r q h = (refl, h)
  relayed-SoundAt other_event r q h = SoundAt-Open r.done r.emitted q h

  unless_done-SoundAt :
      (d : Bool) (ev : EngineEvent) (r : Relay)
      → r.done ≡ d
      → SoundAt r.done r.emitted
      → SoundAt (unless_done wire d ev r).done (unless_done wire d ev r).emitted
  unfolding unless_done
  unless_done-SoundAt true ev r q h = h
  unless_done-SoundAt false ev r q h =
      relayed-SoundAt ev (counted r) q (subst (λ x. SoundAt x r.emitted) q h)

  relay_all-SoundAt :
      (evs : List EngineEvent) (r : Relay)
      → SoundAt r.done r.emitted
      → SoundAt (relay_all wire evs r).done (relay_all wire evs r).emitted
  unfolding relay_all apply
  relay_all-SoundAt [] r h = h
  relay_all-SoundAt (ev ∷ evs) r h =
      relay_all-SoundAt evs (unless_done wire r.done ev r) (unless_done-SoundAt r.done ev r refl h)

  finish_if-EndsOnce :
      (d : Bool) (e : Option String) (r : Relay)
      → SoundAt d r.emitted
      → EndsOnce (finish_if wire d e r).emitted
  unfolding finish_if
  finish_if-EndsOnce true e r h = h
  finish_if-EndsOnce false e r h = (refl, h)

  -- Whatever events the engine's stream has, and however it ends, a relay that is finished after them
  -- has ended the other service's stream exactly once, and as its last call.
  pub relay-EndsOnce :
      (evs : List EngineEvent) (stream_error : Option String)
      → EndsOnce (finish_relay wire stream_error (relay_all wire evs new_relay)).emitted
  unfolding finish_relay
  relay-EndsOnce evs stream_error =
      let r = relay_all wire evs new_relay in
      finish_if-EndsOnce r.done stream_error r (relay_all-SoundAt evs new_relay tt)
