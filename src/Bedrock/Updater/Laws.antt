-- ===== src/Bedrock/Updater/Laws.antt =====
-- The model in use after a whole cycle.
use ai_agent_go_service.Prelude.{
  ◌≡◌, refl, ◌⊎◌, inl, inr, String, ◌==◌, Bool, true, false, not, ◌&&◌, List, [], Option, some,
  none, Bool-cases, Result, ok, err,
}
use mathlib.Core.List.{Memᴰ}
use ai_agent_go_service.Bedrock.ModelId.{
  ParsedModel, parse_model_id, same_model, gateway_candidate_ok,
}
use ai_agent_go_service.Bedrock.State.{
  already_latest, probed, Updater, Effects, Verdict, cut_short, passed, rejected, set_world,
  set_outcome, set_unhealthy, recover_model,
}
use ai_agent_go_service.Bedrock.Upgrade.{probe, resolve_and_upgrade}
use ai_agent_go_service.Bedrock.Upgrade.Laws.{
  Safe, Safe-event, Checked, probe-Checked, resolve_and_upgrade-Safe,
}
use ai_agent_go_service.Bedrock.Updater.{
  fail_health_check, scan_recovery, gateway_recovery, ask_recovery, parsed_recovery,
  recovery_unless, recovery_candidate, after_recovery, no_candidate, recover_with,
  recover_from_failed_health_check, health_check_conclusive, after_health, health_check, is_settled,
  then_check, after_stages, run_once,
}

module _ {W : Type 0} (effects : Effects W) (m : String) where
  scan_recovery-Safe :
      (parsed : ParsedModel) (broken gone : String) (x : Result String (List String) × W)
      (u : Updater W)
      → Safe m u
      → Safe m (scan_recovery effects parsed broken gone x u).1
  unfolding scan_recovery
  scan_recovery-Safe parsed broken gone (err e, w) u h = h
  scan_recovery-Safe parsed broken gone (ok ids, w) u h = h

  gateway_recovery-Safe :
      (parsed : ParsedModel) (broken gone : String) (answer : Result String String) (u : Updater W)
      → Safe m u
      → Safe m (gateway_recovery effects parsed broken gone answer u).1
  unfolding gateway_recovery
  gateway_recovery-Safe parsed broken gone (err e) u h =
      scan_recovery-Safe parsed broken gone (effects.list u.world) u h
  gateway_recovery-Safe parsed broken gone (ok id) u h =
      elim (Bool-cases (
        gateway_candidate_ok effects.texts id parsed && not (same_model effects.texts id broken))) [
          | inl t ↦ rw t h
          | inr f ↦ rw f (scan_recovery-Safe parsed broken gone (effects.list u.world) u h)
        ]

  ask_recovery-Safe :
      (b : Bool) (parsed : ParsedModel) (broken gone : String) (u : Updater W)
      → Safe m u
      → Safe m (ask_recovery effects b parsed broken gone u).1
  unfolding ask_recovery
  ask_recovery-Safe true parsed broken gone u h =
      let (answer, w) = effects.resolve u.world in
      gateway_recovery-Safe parsed broken gone answer (set_world w u) h
  ask_recovery-Safe false parsed broken gone u h =
      scan_recovery-Safe parsed broken gone (effects.list u.world) u h

  parsed_recovery-Safe :
      (o : Option ParsedModel) (broken gone : String) (u : Updater W)
      → Safe m u
      → Safe m (parsed_recovery effects o broken gone u).1
  unfolding parsed_recovery
  parsed_recovery-Safe none broken gone u h = h
  parsed_recovery-Safe (some parsed) broken gone u h =
      ask_recovery-Safe effects.has_gateway parsed broken gone u h

  recovery_unless-Safe :
      (d : Bool × W) (broken gone : String) (u : Updater W)
      → Safe m u
      → Safe m (recovery_unless effects d broken gone u).1
  unfolding recovery_unless
  recovery_unless-Safe (true, w) broken gone u h = h
  recovery_unless-Safe (false, w) broken gone u h =
      parsed_recovery-Safe (parse_model_id effects.texts broken) broken gone (set_world w u) h

  after_recovery-Safe :
      (broken cand e : String) (x : Verdict × Updater W)
      → Checked m cand x
      → Safe m (after_recovery effects broken cand e x)
  unfolding after_recovery recover_model fail_health_check
  after_recovery-Safe broken cand e (cut_short, u) (h, i) = h
  after_recovery-Safe broken cand e (passed n, u) (h, i) = inr (Memᴰ.tail i)
  after_recovery-Safe broken cand e (rejected e', u) (h, i) = Safe-event m _ u h

  no_candidate-Safe :
      (d : Bool × W) (broken e : String) (u : Updater W)
      → Safe m u
      → Safe m (no_candidate effects d broken e u)
  unfolding no_candidate fail_health_check
  no_candidate-Safe (true, w) broken e u h = h
  no_candidate-Safe (false, w) broken e u h = Safe-event m _ u h

  recover_with-Safe :
      (broken e : String) (x : String × Updater W)
      → Safe m x.1
      → Safe m (recover_with effects broken e x)
  unfolding recover_with
  recover_with-Safe broken e (cand, u) h = elim (Bool-cases (cand == "")) [
    | inl t ↦ rw t (no_candidate-Safe (effects.ctx_done u.world) broken e u h)
    | inr f ↦ rw f (after_recovery-Safe broken cand e _ (probe-Checked effects m cand 3 1 "" u h))
  ]

  after_health-Safe :
      (cur gone : String) (x : Verdict × Updater W)
      → Safe m x.1
      → Safe m (after_health effects cur gone x)
  unfolding after_health recover_from_failed_health_check recovery_candidate fail_health_check
  after_health-Safe cur gone (cut_short, u) h = h
  after_health-Safe cur gone (passed n, u) h = h
  after_health-Safe cur gone (rejected e, u) h =
      elim (Bool-cases (not (health_check_conclusive effects e))) [
        | inl t ↦ rw t h
        | inr f ↦ rw f (elim (Bool-cases (not (gone == ""))) [
          | inl t ↦ rw t (Safe-event m _ u h)
          | inr g ↦ rw g (
              recover_with-Safe cur e _
                (recovery_unless-Safe (effects.ctx_done u.world) cur gone (set_unhealthy true u) h))
        ])
      ]

  then_check-Safe :
      (gone : String) (d : Bool × W) (u : Updater W)
      → Safe m u
      → Safe m (then_check effects gone d u)
  unfolding then_check health_check
  then_check-Safe gone (true, w) u h = h
  then_check-Safe gone (false, w) u h =
      let u' = set_world w u in
      let x = probe effects u'.model 3 1 "" u' in
      after_health-Safe u'.model gone x (probe-Checked effects m u'.model 3 1 "" u' h).0

  after_stages-Safe : (x : String × Updater W) → Safe m x.1 → Safe m (after_stages effects x)
  unfolding after_stages
  after_stages-Safe (gone, u) h = elim (Bool-cases (is_settled effects u.outcome)) [
    | inl t ↦ rw t h
    | inr f ↦ rw f (then_check-Safe gone (effects.ctx_done u.world) u h)
  ]

-- Whatever the gateway, the catalog and the probes answer, the model in use after a cycle of the
-- updater that starts with no events is the one before it, or one that passed a probe in that cycle.
pub run_once-Safe :
    {W : Type 0} (effects : Effects W) (u : Updater W)
    → u.events ≡ []
    → let u' = run_once effects u in (u'.model ≡ u.model) ⊎ Memᴰ (probed u'.model true) u'.events
unfolding run_once
run_once-Safe effects u fresh =
    after_stages-Safe effects u.model (resolve_and_upgrade effects (set_outcome already_latest u))
      (resolve_and_upgrade-Safe effects u.model (set_outcome already_latest u) (inl refl))
