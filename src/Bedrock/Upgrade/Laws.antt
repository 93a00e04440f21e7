-- ===== src/Bedrock/Upgrade/Laws.antt =====
-- The model in use after the stages of an upgrade: the one before, or one that was probed.
use ai_agent_go_service.Prelude.{
  ℕ, zero, suc, ◌+◌, ◌≡◌, refl, ◌⊎◌, inl, inr, String, ◌==◌, Bool, true, false, not, ◌&&◌, List,
  Option, some, none, Bool-cases, if◌then◌else◌, Result, ok, err,
}
use mathlib.Core.List.{Memᴰ}
use ai_agent_go_service.Bedrock.ModelId.{
  ParsedModel, parse_model_id, latest_candidate, same_model, gateway_candidate_ok,
}
use ai_agent_go_service.Bedrock.State.{
  Event, probed, Updater, Effects, Verdict, cut_short, passed, rejected, set_world, record_event,
  swap_model, recover_model,
}
use ai_agent_go_service.Bedrock.Upgrade.{
  checked_first, unless_cancelled, backoff, probe_result, next_attempt, probe, promote,
  after_upgrade, try_upgrade, after_gateway_try, gateway_answer, ask_gateway, after_scan_try,
  scan_candidate, scan_catalog, catalog_unless, second_stage, parsed_upgrade, resolve_and_upgrade,
}

-- The model in use is the given one, or has passed a probe.
abbrev pub Safe : {W : Type 0} → String → Updater W → Type 0
Safe m u = (u.model ≡ m) ⊎ Memᴰ (probed u.model true) u.events

pub Safe-event :
    {W : Type 0} (m : String) (e : Event) (u : Updater W) → Safe m u → Safe m (record_event e u)
Safe-event m e u (inl q) = inl q
Safe-event m e u (inr i) = inr (Memᴰ.tail i)

-- A verdict in favour of a model comes with its probe.
abbrev pub Proven : {W : Type 0} → String → Verdict × Updater W → Type 0
Proven id (cut_short, u) = Unit
Proven id (passed n, u) = Memᴰ (probed id true) u.events
Proven id (rejected e, u) = Unit

abbrev pub Checked : {W : Type 0} → String → String → Verdict × Updater W → Type 0
Checked m id (v, u) = Safe m u × Proven id (v, u)

module _ {W : Type 0} (effects : Effects W) (m : String) where
  unless_cancelled-Checked :
      (id : String) (u : Updater W) (go : Updater W → Verdict × Updater W)
      → Safe m u
      → ((w : W) → Checked m id (go (set_world w u)))
      → Checked m id (unless_cancelled effects u cut_short go)
  unfolding unless_cancelled
  unless_cancelled-Checked id u go h k = tested (effects.ctx_done u.world)
    where
      tested : (d : Bool × W) → Checked m id (checked_first effects d u cut_short go)
      tested (true, w) = (h, tt)
      tested (false, w) = k w

  backoff-Safe :
      (left attempt : ℕ) (u : Updater W) → Safe m u → Safe m (backoff effects left attempt u)
  unfolding backoff
  backoff-Safe zero attempt u h = h
  backoff-Safe (suc left) attempt u h = h

  pub probe-Checked :
      (id : String) (left attempt : ℕ) (last : String) (u : Updater W)
      → Safe m u
      → Checked m id (probe effects id left attempt last u)
  unfolding probe
  probe-Checked id zero attempt last u h =
      unless_cancelled-Checked id u (λ u'. (rejected last, u')) h (λ w. (h, tt))
  probe-Checked id (suc left) attempt last u h = unless_cancelled-Checked id u _ h (λ w.
      answered (set_world w u) h (effects.validate id w) (λ e u'' h'.
        probe-Checked id left (attempt + 1) e (backoff effects left attempt u'')
          (backoff-Safe left attempt u'' h')))
    where
      answered :
          (u' : Updater W)
          → Safe m u'
          → (x : Option String × W)
          → ((e : String) (u'' : Updater W)
              → Safe m u''
              → Checked m id
                  (probe effects id left (attempt + 1) e (backoff effects left attempt u'')))
          → Checked m id (
              next_attempt effects attempt
                (probe_result effects id x u')
                (λ e u''. probe effects id left (attempt + 1) e (backoff effects left attempt u'')))
      answered u' h' (none, w) go = (Safe-event m (probed id true) u' h', Memᴰ.head refl)
      answered u' h' (some e, w) go = go e _ (Safe-event m (probed id false) u' h')

  promote-Safe :
      (cand : String) (u : Updater W)
      → Memᴰ (probed cand true) u.events
      → Safe m (promote effects cand u)
  unfolding promote swap_model recover_model
  promote-Safe cand u i = by_health u.cur_unhealthy
    where
      by_health :
          (b : Bool)
          → ((if b then recover_model cand u else swap_model cand u).model ≡ m)
            ⊎ Memᴰ
                (probed (if b then recover_model cand u else swap_model cand u).model true)
                (if b then recover_model cand u else swap_model cand u).events
      by_health true = inr i
      by_health false = inr i

  after_upgrade-Safe :
      (cur cand resolver : String) (x : Verdict × Updater W)
      → Checked m cand x
      → Safe m (after_upgrade effects cur cand resolver x).1
  unfolding after_upgrade
  after_upgrade-Safe cur cand resolver (cut_short, u) (h, i) = h
  after_upgrade-Safe cur cand resolver (passed n, u) (h, i) =
      Safe-event m _ (promote effects cand u) (promote-Safe cand u i)
  after_upgrade-Safe cur cand resolver (rejected e, u) (h, i) = Safe-event m _ u h

  try_upgrade-Safe :
      (cur cand resolver : String) (u : Updater W)
      → Safe m u
      → Safe m (try_upgrade effects cur cand resolver u).1
  unfolding try_upgrade
  try_upgrade-Safe cur cand resolver u h =
      after_upgrade-Safe cur cand resolver (probe effects cand 3 1 "" u)
        (probe-Checked cand 3 1 "" u h)

  after_gateway_try-Safe :
      (id : String) (x : Bool × Updater W) → Safe m x.1 → Safe m (after_gateway_try effects id x).1
  unfolding after_gateway_try
  after_gateway_try-Safe id (true, u) h = h
  after_gateway_try-Safe id (false, u) h = h

  gateway_answer-Safe :
      (parsed : ParsedModel) (cur : String) (answer : Result String String) (u : Updater W)
      → Safe m u
      → Safe m (gateway_answer effects parsed cur answer u).1
  unfolding gateway_answer
  gateway_answer-Safe parsed cur (err e) u h = h
  gateway_answer-Safe parsed cur (ok id) u h = elim (Bool-cases (same_model effects.texts id cur)) [
    | inl t ↦ rw t h
    | inr f ↦ rw f (elim (Bool-cases (gateway_candidate_ok effects.texts id parsed)) [
      | inl t ↦ rw t (after_gateway_try-Safe id _ (try_upgrade-Safe cur id "gateway" u h))
      | inr g ↦ rw g h
    ])
  ]

  ask_gateway-Safe :
      (b : Bool) (parsed : ParsedModel) (cur : String) (u : Updater W)
      → Safe m u
      → Safe m (ask_gateway effects b parsed cur u).1
  unfolding ask_gateway
  ask_gateway-Safe false parsed cur u h = h
  ask_gateway-Safe true parsed cur u h =
      let (answer, w) = effects.resolve u.world in
      gateway_answer-Safe parsed cur answer (set_world w u) h

  after_scan_try-Safe :
      (cand gone : String) (x : Bool × Updater W)
      → Safe m x.1
      → Safe m (after_scan_try effects cand gone x).1
  unfolding after_scan_try
  after_scan_try-Safe cand gone (true, u) h = h
  after_scan_try-Safe cand gone (false, u) h = h

  scan_candidate-Safe :
      (cur gone : String) (found : Option String) (u : Updater W)
      → Safe m u
      → Safe m (scan_candidate effects cur gone found u).1
  unfolding scan_candidate
  scan_candidate-Safe cur gone none u h = h
  scan_candidate-Safe cur gone (some cand) u h =
      elim (Bool-cases (not (gone == "") && same_model effects.texts cand gone)) [
        | inl t ↦ rw t h
        | inr f ↦ rw f (after_scan_try-Safe cand gone _ (try_upgrade-Safe cur cand "fallback" u h))
      ]

  scan_catalog-Safe :
      (parsed : ParsedModel) (cur gone : String) (x : Result String (List String) × W)
      (u : Updater W)
      → Safe m u
      → Safe m (scan_catalog effects parsed cur gone x u).1
  unfolding scan_catalog
  scan_catalog-Safe parsed cur gone (err e, w) u h = h
  scan_catalog-Safe parsed cur gone (ok ids, w) u h =
      scan_candidate-Safe cur gone (latest_candidate effects.texts ids parsed) (set_world w u) h

  catalog_unless-Safe :
      (d : Bool × W) (parsed : ParsedModel) (cur gone : String) (u : Updater W)
      → Safe m u
      → Safe m (catalog_unless effects d parsed cur gone u).1
  unfolding catalog_unless
  catalog_unless-Safe (true, w) parsed cur gone u h = h
  catalog_unless-Safe (false, w) parsed cur gone u h =
      scan_catalog-Safe parsed cur gone (effects.list w) u h

  second_stage-Safe :
      (parsed : ParsedModel) (cur : String) (x : (Bool × String) × Updater W)
      → Safe m x.1
      → Safe m (second_stage effects parsed cur x).1
  unfolding second_stage
  second_stage-Safe parsed cur ((true, gone), u) h = h
  second_stage-Safe parsed cur ((false, gone), u) h =
      catalog_unless-Safe (effects.ctx_done u.world) parsed cur gone u h

  parsed_upgrade-Safe :
      (o : Option ParsedModel) (cur : String) (u : Updater W)
      → Safe m u
      → Safe m (parsed_upgrade effects o cur u).1
  unfolding parsed_upgrade
  parsed_upgrade-Safe none cur u h = h
  parsed_upgrade-Safe (some parsed) cur u h =
      second_stage-Safe parsed cur _ (ask_gateway-Safe effects.has_gateway parsed cur u h)

  pub resolve_and_upgrade-Safe :
      (u : Updater W) → Safe m u → Safe m (resolve_and_upgrade effects u).1
  unfolding resolve_and_upgrade
  resolve_and_upgrade-Safe u h =
      parsed_upgrade-Safe (parse_model_id effects.texts u.model) u.model u h
