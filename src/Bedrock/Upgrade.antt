-- ===== src/Bedrock/Upgrade.antt =====
-- autoupdate.go: the stages of an upgrade. The updater asks the gateway, then scans the catalog, and
-- probes a candidate before it is used.
pub mod Laws
use ai_agent_go_service.Prelude.{
  ℕ, zero, suc, ◌+◌, String, ◌==◌, Bool, true, false, not, ◌&&◌, ◌||◌, eqb, List, [], ◌∷◌, Option,
  some, none, if◌then◌else◌, Result, ok, err,
}
use ai_agent_go_service.Bedrock.ModelId.{
  ParsedModel, Texts, parse_model_id, latest_candidate, same_model, gateway_candidate_ok,
}
use ai_agent_go_service.Bedrock.State.{
  CycleOutcome, already_latest, skipped_unparseable_model, run_cancelled, list_failed, upgraded,
  declined, health_check_inconclusive, health_check_failed, recovered, upgraded_note, declined_note,
  recovered_note, failed_note, probed, noted, Updater, Effects, Verdict, cut_short, passed,
  rejected, set_world, set_outcome, set_unhealthy, record_event, swap_model, recover_model,
}

module _ {W : Type 0} (effects : Effects W) where
  open effects use {
    texts, has_gateway, resolve, list, validate, ctx_done, sleep, is_model_unavailable,
    is_probe_contract, both_errors,
  }

  checked_first :
      {A : Type 0} → Bool × W → Updater W → A → (Updater W → A × Updater W) → A × Updater W
  checked_first (true, w) u a go = (a, set_world w u)
  checked_first (false, w) u a go = go (set_world w u)

  -- The test of the context that stands before each attempt, and after the last.
  unless_cancelled : {A : Type 0} → Updater W → A → (Updater W → A × Updater W) → A × Updater W
  unfolding checked_first
  unless_cancelled u a go = checked_first (ctx_done u.world) u a go

  -- In milliseconds; the last attempt has no pause after it.
  backoff : ℕ → ℕ → Updater W → Updater W
  backoff zero attempt u = u
  backoff (suc left) attempt u = set_world (sleep (if eqb attempt 1 then 5000 else 15000) u.world) u

  probe_result : String → Option String × W → Updater W → Option String × Updater W
  probe_result id (none, w) u = (none, record_event (probed id true) (set_world w u))
  probe_result id (some e, w) u = (some e, record_event (probed id false) (set_world w u))

  next_attempt :
      ℕ
      → Option String × Updater W
      → (String → Updater W → Verdict × Updater W)
      → Verdict × Updater W
  next_attempt attempt (none, u) go = (passed attempt, u)
  next_attempt attempt (some e, u) go = go e u

  -- The attempts that are left: the loop that the upgrade, the health check and the recovery share.
  unfoldable pub probe : String → ℕ → ℕ → String → Updater W → Verdict × Updater W
  unfolding unless_cancelled backoff probe_result next_attempt
  probe id zero attempt last u = unless_cancelled u cut_short (λ u'. (rejected last, u'))
  probe id (suc left) attempt last u = unless_cancelled u cut_short (λ u'.
      next_attempt attempt (probe_result id (validate id u'.world) u')
        (λ e u''. probe id left (attempt + 1) e (backoff left attempt u'')))

  promote : String → Updater W → Updater W
  unfolding swap_model recover_model
  promote cand u =
      set_outcome upgraded
        (set_unhealthy false (if u.cur_unhealthy then recover_model cand u else swap_model cand u))

  after_upgrade : String → String → String → Verdict × Updater W → Bool × Updater W
  unfolding promote
  after_upgrade cur cand resolver (cut_short, u) = (false, set_outcome run_cancelled u)
  after_upgrade cur cand resolver (passed attempt, u) =
      (true, record_event (noted (upgraded_note cur cand attempt resolver)) (promote cand u))
  after_upgrade cur cand resolver (rejected e, u) =
      (false, record_event (noted (declined_note cur cand 3 e resolver)) (set_outcome declined u))

  try_upgrade : String → String → String → Updater W → Bool × Updater W
  unfolding probe after_upgrade
  try_upgrade cur cand resolver u = after_upgrade cur cand resolver (probe cand 3 1 "" u)

  settled_by : CycleOutcome → String → Bool × String
  settled_by run_cancelled id = (true, "")
  settled_by _ id = (false, id)

  -- Whether the first stage settles the cycle, and the candidate that it declined.
  after_gateway_try : String → Bool × Updater W → (Bool × String) × Updater W
  unfolding settled_by
  after_gateway_try id (true, u) = ((true, ""), u)
  after_gateway_try id (false, u) = (settled_by u.outcome id, u)

  gateway_answer :
      ParsedModel → String → Result String String → Updater W → (Bool × String) × Updater W
  unfolding try_upgrade after_gateway_try
  gateway_answer parsed cur (err e) u = ((false, ""), u)
  gateway_answer parsed cur (ok id) u =
      let tried = after_gateway_try id (try_upgrade cur id "gateway" u) in
      if same_model texts id cur
      then ((true, ""), u)
      else if gateway_candidate_ok texts id parsed
      then tried
      else ((false, ""), u)

  ask_gateway : Bool → ParsedModel → String → Updater W → (Bool × String) × Updater W
  unfolding gateway_answer
  ask_gateway false parsed cur u = ((false, ""), u)
  ask_gateway true parsed cur u =
      let (answer, w) = resolve u.world in gateway_answer parsed cur answer (set_world w u)

  declined_by : CycleOutcome → String → String → String
  declined_by declined cand gone = cand
  declined_by _ cand gone = gone

  after_scan_try : String → String → Bool × Updater W → String × Updater W
  unfolding declined_by
  after_scan_try cand gone (true, u) = (gone, u)
  after_scan_try cand gone (false, u) = (declined_by u.outcome cand gone, u)

  scan_candidate : String → String → Option String → Updater W → String × Updater W
  unfolding try_upgrade after_scan_try
  scan_candidate cur gone none u = (gone, u)
  scan_candidate cur gone (some cand) u =
      let tried = after_scan_try cand gone (try_upgrade cur cand "fallback" u) in
      if not (gone == "") && same_model texts cand gone then (gone, u) else tried

  scan_catalog :
      ParsedModel
      → String
      → String
      → Result String (List String) × W
      → Updater W
      → String × Updater W
  unfolding scan_candidate
  scan_catalog parsed cur gone (err e, w) u = (gone, set_outcome list_failed (set_world w u))
  scan_catalog parsed cur gone (ok ids, w) u =
      scan_candidate cur gone (latest_candidate texts ids parsed) (set_world w u)

  catalog_unless : Bool × W → ParsedModel → String → String → Updater W → String × Updater W
  unfolding scan_catalog
  catalog_unless (true, w) parsed cur gone u = (gone, set_outcome run_cancelled (set_world w u))
  catalog_unless (false, w) parsed cur gone u = scan_catalog parsed cur gone (list w) u

  second_stage : ParsedModel → String → (Bool × String) × Updater W → String × Updater W
  unfolding catalog_unless
  second_stage parsed cur ((true, gone), u) = (gone, u)
  second_stage parsed cur ((false, gone), u) = catalog_unless (ctx_done u.world) parsed cur gone u

  parsed_upgrade : Option ParsedModel → String → Updater W → String × Updater W
  unfolding ask_gateway second_stage
  parsed_upgrade none cur u = ("", set_outcome skipped_unparseable_model u)
  parsed_upgrade (some parsed) cur u =
      second_stage parsed cur (ask_gateway has_gateway parsed cur u)

  -- The candidate that was declined in this cycle, if one was.
  unfoldable pub resolve_and_upgrade : Updater W → String × Updater W
  unfolding parsed_upgrade
  resolve_and_upgrade u = parsed_upgrade (parse_model_id texts u.model) u.model u
