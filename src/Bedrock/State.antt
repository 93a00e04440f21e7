-- ===== src/Bedrock/State.antt =====
-- autoupdate.go and factory.go: what the updater keeps, and what it calls.
use ai_agent_go_service.Prelude.{ℕ, String, ◌==◌, Bool, List, ◌∷◌, Option, if◌then◌else◌, Result}
use ai_agent_go_service.Bedrock.ModelId.{Texts}

pub data CycleOutcome : Type 0 where
  already_latest skipped_unparseable_model run_cancelled list_failed upgraded declined :
      CycleOutcome
  health_check_inconclusive health_check_failed recovered : CycleOutcome

-- The events that are published, with the models, the attempts and the error.
pub data Note : Type 0 where
  upgraded_note : String → String → ℕ → String → Note
  declined_note : String → String → ℕ → String → String → Note
  recovered_note : String → String → ℕ → Note
  failed_note : String → ℕ → String → Note

pub data Event : Type 0 where
  probed : String → Bool → Event
  noted : Note → Event

-- The node's model and its fallback, the updater's flag, the outcome of the cycle, what lies
-- outside, and the probes and notes of the cycle, the latest first.
pub record Updater (W : Type 0) : Type 0 where
  pub model : String
  pub last_known_good : String
  pub cur_unhealthy : Bool
  pub outcome : CycleOutcome
  pub world : W
  pub events : List Event

-- The injected functions, and the two tests on an error that the health check makes.
pub record Effects (W : Type 0) : Type 0 where
  pub texts : Texts
  pub has_gateway : Bool
  pub resolve : W → Result String String × W
  pub list : W → Result String (List String) × W
  pub validate : String → W → Option String × W
  pub ctx_done : W → Bool × W
  pub sleep : ℕ → W → W
  pub is_model_unavailable : String → Bool
  pub is_probe_contract : String → Bool
  pub both_errors : String → String → String → String

-- What the attempts at a probe come to.
pub data Verdict : Type 0 where
  cut_short : Verdict
  passed : ℕ → Verdict
  rejected : String → Verdict

module _ {W : Type 0} where
  abbrev pub set_world : W → Updater W → Updater W
  set_world w u = record u { world = w }

  abbrev pub set_outcome : CycleOutcome → Updater W → Updater W
  set_outcome o u = record u { outcome = o }

  abbrev pub set_unhealthy : Bool → Updater W → Updater W
  set_unhealthy b u = record u { cur_unhealthy = b }

  abbrev pub record_event : Event → Updater W → Updater W
  record_event e u = record u { events = e ∷ u.events }

  abbrev pub set_model : String → String → Updater W → Updater W
  set_model m good u = record u { model = m; last_known_good = good }

  -- The displaced model becomes the fallback.
  unfoldable pub swap_model : String → Updater W → Updater W
  swap_model m u = set_model m (if u.model == m then u.last_known_good else u.model) u

  -- The broken model is never recorded.
  unfoldable pub recover_model : String → Updater W → Updater W
  recover_model m u = set_model m (if u.last_known_good == m then "" else u.last_known_good) u
