-- ===== src/Bedrock/Updater.antt =====
-- autoupdate.go: one cycle of the updater, with the health check of the model in use and its
-- replacement.
pub mod Laws
pub mod Examples
use ai_agent_go_service.Prelude.{
  ℕ, zero, suc, ◌+◌, String, ◌==◌, Bool, true, false, not, ◌&&◌, ◌||◌, eqb, List, [], ◌∷◌, Option,
  some, none, if◌then◌else◌, Result, ok, err,
}
use ai_agent_go_service.Bedrock.ModelId.{
  ParsedModel, Texts, parse_model_id, latest_candidate, same_model, gateway_candidate_ok,
}
use ai_agent_go_service.Bedrock.State.{
  CycleOutcome, already_latest, skipped_unparseable_model, run_cancelled, list_failed, upgraded,
  declined, health_check_inconclusive, health_check_failed, recovered, upgraded_note, declined_note,
  recovered_note, failed_note, probed, noted, Updater, Effects, Verdict, cut_short, passed,
  rejected, set_world, set_outcome, set_unhealthy, record_event, swap_model, recover_model,
}
use ai_agent_go_service.Bedrock.Upgrade.{probe, resolve_and_upgrade}

module _ {W : Type 0} (effects : Effects W) where
  open effects use {
    texts, has_gateway, resolve, list, validate, ctx_done, sleep, is_model_unavailable,
    is_probe_contract, both_errors,
  }

  fail_health_check : String → String → Updater W → Updater W
  fail_health_check cur e u =
      record_event (noted (failed_note cur 3 e)) (set_outcome health_check_failed u)

  -- What the scan offers, unless it is the broken model or was declined.
  recovery_of : Option String → String → String → String
  recovery_of none broken gone = ""
  recovery_of (some cand) broken gone =
      if same_model texts cand broken || (not (gone == "") && same_model texts cand gone)
      then ""
      else cand

  scan_recovery :
      ParsedModel
      → String
      → String
      → Result String (List String) × W
      → Updater W
      → String × Updater W
  unfolding recovery_of
  scan_recovery parsed broken gone (err e, w) u = ("", set_world w u)
  scan_recovery parsed broken gone (ok ids, w) u =
      (recovery_of (latest_candidate texts ids parsed) broken gone, set_world w u)

  gateway_recovery :
      ParsedModel → String → String → Result String String → Updater W → String × Updater W
  unfolding scan_recovery
  gateway_recovery parsed broken gone (err e) u = scan_recovery parsed broken gone (list u.world) u
  gateway_recovery parsed broken gone (ok id) u =
      let scanned = scan_recovery parsed broken gone (list u.world) u in
      if gateway_candidate_ok texts id parsed && not (same_model texts id broken)
      then (id, u)
      else scanned

  ask_recovery : Bool → ParsedModel → String → String → Updater W → String × Updater W
  unfolding gateway_recovery
  ask_recovery true parsed broken gone u =
      let (answer, w) = resolve u.world in
      gateway_recovery parsed broken gone answer (set_world w u)
  ask_recovery false parsed broken gone u = scan_recovery parsed broken gone (list u.world) u

  parsed_recovery : Option ParsedModel → String → String → Updater W → String × Updater W
  unfolding ask_recovery
  parsed_recovery none broken gone u = ("", u)
  parsed_recovery (some parsed) broken gone u = ask_recovery has_gateway parsed broken gone u

  recovery_unless : Bool × W → String → String → Updater W → String × Updater W
  unfolding parsed_recovery
  recovery_unless (true, w) broken gone u = ("", set_world w u)
  recovery_unless (false, w) broken gone u =
      parsed_recovery (parse_model_id texts broken) broken gone (set_world w u)

  -- A replacement for a broken model, or "".
  recovery_candidate : String → String → Updater W → String × Updater W
  unfolding recovery_unless
  recovery_candidate broken gone u = recovery_unless (ctx_done u.world) broken gone u

  after_recovery : String → String → String → Verdict × Updater W → Updater W
  unfolding recover_model fail_health_check
  after_recovery broken cand e (cut_short, u) = set_outcome run_cancelled u
  after_recovery broken cand e (passed attempt, u) =
      record_event (noted (recovered_note broken cand attempt))
        (set_outcome recovered (set_unhealthy false (recover_model cand u)))
  after_recovery broken cand e (rejected e', u) = fail_health_check broken (both_errors e cand e') u

  no_candidate : Bool × W → String → String → Updater W → Updater W
  unfolding fail_health_check
  no_candidate (true, w) broken e u = set_outcome run_cancelled (set_world w u)
  no_candidate (false, w) broken e u = fail_health_check broken e (set_world w u)

  recover_with : String → String → String × Updater W → Updater W
  unfolding no_candidate after_recovery probe
  recover_with broken e (cand, u) =
      let given_up = no_candidate (ctx_done u.world) broken e u in
      let replaced = after_recovery broken cand e (probe effects cand 3 1 "" u) in
      if cand == "" then given_up else replaced

  recover_from_failed_health_check : String → String → String → Updater W → Updater W
  unfolding recover_with recovery_candidate
  recover_from_failed_health_check broken gone e u =
      recover_with broken e (recovery_candidate broken gone u)

  health_check_conclusive : String → Bool
  health_check_conclusive e = is_model_unavailable e || is_probe_contract e

  after_health : String → String → Verdict × Updater W → Updater W
  unfolding health_check_conclusive fail_health_check recover_from_failed_health_check
  after_health cur gone (cut_short, u) = set_outcome run_cancelled u
  after_health cur gone (passed attempt, u) = set_unhealthy false u
  after_health cur gone (rejected e, u) =
      let sick = set_unhealthy true u in
      let replaced = recover_from_failed_health_check cur gone e sick in
      if not (health_check_conclusive e)
      then set_outcome health_check_inconclusive u
      else if not (gone == "")
      then fail_health_check cur e sick
      else replaced

  unfoldable pub health_check : String → Updater W → Updater W
  unfolding after_health probe
  health_check gone u = after_health u.model gone (probe effects u.model 3 1 "" u)

  is_settled : CycleOutcome → Bool
  is_settled upgraded = true
  is_settled run_cancelled = true
  is_settled _ = false

  then_check : String → Bool × W → Updater W → Updater W
  unfolding health_check
  then_check gone (true, w) u = set_world w u
  then_check gone (false, w) u = health_check gone (set_world w u)

  after_stages : String × Updater W → Updater W
  unfolding is_settled then_check
  after_stages (gone, u) =
      let checked_too = then_check gone (ctx_done u.world) u in
      if is_settled u.outcome then u else checked_too

  -- One cycle.
  unfoldable pub run_once : Updater W → Updater W
  unfolding resolve_and_upgrade after_stages
  run_once u = after_stages (resolve_and_upgrade effects (set_outcome already_latest u))
