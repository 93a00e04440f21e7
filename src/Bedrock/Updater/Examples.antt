-- ===== src/Bedrock/Updater/Examples.antt =====
-- A cycle in which the gateway fails and the catalog has a newer model, which passes its probe.
use ai_agent_go_service.Prelude.{ℕ, ◌≡◌, refl, ◌⊎◌, true, false, [], ◌∷◌, none, ok, err}
use mathlib.Core.List.{Memᴰ}
use ai_agent_go_service.Bedrock.State.{already_latest, probed, Updater, Effects}
use ai_agent_go_service.Bedrock.ModelId.Examples.{texts}
use ai_agent_go_service.Bedrock.Updater.{run_once}
use ai_agent_go_service.Bedrock.Updater.Laws.{run_once-Safe}

abbrev effects : Effects ℕ
effects = record {
  texts = texts;
  has_gateway = true;
  resolve = λ w. (err "timeout", w);
  list = λ w. (ok ("old" ∷ "new" ∷ []), w);
  validate = λ id w. (none, w);
  ctx_done = λ w. (false, w);
  sleep = λ d w. w;
  is_model_unavailable = λ e. false;
  is_probe_contract = λ e. false;
  both_errors = λ e cand e'. e;
}

abbrev start : Updater ℕ
start = record {
  model = "old";
  last_known_good = "";
  cur_unhealthy = false;
  outcome = already_latest;
  world = 0;
  events = [];
}

run_once-Safe_example :
    let u = run_once effects start in (u.model ≡ "old") ⊎ Memᴰ (probed u.model true) u.events
run_once-Safe_example = run_once-Safe effects start refl
