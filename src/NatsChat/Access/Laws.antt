-- ===== src/NatsChat/Access/Laws.antt =====
-- Who is admitted, and as whom.
use ai_agent_go_service.Prelude.{
  ◌≡◌, refl, sym, subst, String, ◌==◌, Bool-cases, inl, inr, true, false, some, if◌then◌else◌,
  arith, ok,
}
use ai_agent_go_service.Loader.Load.Built.{ok_inj}
use ai_agent_go_service.Engine.Access.{IndexStatus, no_access, bound, unbound, IndexAccess}
use ai_agent_go_service.Idt.Cache.{cache_key}
use ai_agent_go_service.Idt.Validator.{
  Validator, Verdict, Identity, validate, validate_if_enabled, validate_for_function,
}
use ai_agent_go_service.Idt.Validator.Laws.{
  Answers, Granted, IsSound, Kept, Decides, refused, failed_open, just_granted, still_remembered,
  validate-Judges,
}
use ai_agent_go_service.NatsChat.Access.{
  IdtTarget, target_of, current_idt_target, app_default, index_unbound, index_function, Asker,
  override, admitted, validate_token, enforced, observed, authorize_idt,
}

-- The function that guards a workflow: that of its index, or that of the service if it has no index.
pub data GuardedBy (trim : String → String) (workflow_id : String) (v : Validator) (a : IndexAccess)
    : String → Type 0 where
  by_index :
      a.status ≡ bound
      → (trim a.function_id == "") ≡ false
      → GuardedBy trim workflow_id v a a.function_id
  by_service :
      a.status ≡ no_access
      → GuardedBy trim workflow_id v a (if v.function_id == "" then workflow_id else v.function_id)

module _ {W : Type 0} (identity : Identity W) (Grants : String → String → String → String → Type 0)
    (workflow_id : String) (v : Validator) (tok : String) (trim : String → String)
    (a : IndexAccess) where
  -- Identity granted the function, and named whom it stands for; or the validator fails open.
  pub data Admits (asker : Asker) : Asker → Type 0 where
    unchecked :
        (fn : String) → GuardedBy trim workflow_id v a fn → v.fail_open ≡ true → Admits asker asker
    checked :
        (fn user account : String)
        → GuardedBy trim workflow_id v a fn
        → Granted identity Grants (cache_key identity.sha tok fn) user account
        → Admits asker
            (record { user = override user asker.user; account = override account asker.account })

  override_empty : (s : String) → override "" s ≡ s
  unfolding override
  override_empty s = refl

  admitted-Admits :
      (fn : String) (w : W) (asker who : Asker) (x : Verdict)
      → GuardedBy trim workflow_id v a fn
      → Decides identity Grants v tok fn w x
      → admitted asker x ≡ ok who
      → Admits asker who
  unfolding admitted
  admitted-Admits fn w asker who x asked (refused reason) h = absurd (ground (arith, h))
  admitted-Admits fn w asker who x asked (failed_open reason o) h =
      subst (Admits asker)
        (ok_inj (record { user = override "" asker.user; account = override "" asker.account }) who
          h)
        (rw (override_empty asker.user, override_empty asker.account) (unchecked fn asked o))
  admitted-Admits fn w asker who x asked (just_granted user account p g) h =
      subst (Admits asker) (ok_inj _ who h) (
        checked fn user account asked
          (record { token = tok; function = fn; same_key = refl; was_granted = g }))
  admitted-Admits fn w asker who x asked (still_remembered e p c g l) h =
      subst (Admits asker) (ok_inj _ who h) (checked fn e.user_id e.account_id asked g)

  module _ (answers : Answers identity Grants v) (sound : IsSound identity Grants v)
      (checks : v.enabled ≡ true) where
    asks :
        (fn : String) (w : W) (asker who : Asker)
        → GuardedBy trim workflow_id v a fn
        → admitted asker (validate identity v tok fn w).verdict ≡ ok who
        → Admits asker who
    asks fn w asker who asked h =
        admitted-Admits fn w asker who _ asked
          (validate-Judges identity Grants v tok fn w answers sound).decides h

    for_function_lem :
        (fn : String) (w : W)
        → validate_for_function identity v tok fn w ≡ validate identity v tok fn w
    unfolding validate_for_function
    for_function_lem fn w = ground (arith, checks)

    if_enabled_lem :
        (w : W)
        → validate_if_enabled identity v tok workflow_id w
          ≡ validate identity v tok (if v.function_id == "" then workflow_id else v.function_id) w
    unfolding validate_if_enabled
    if_enabled_lem w = ground (arith, checks)

    validate_token-Admits :
        (s : IndexStatus) (w : W) (asker who : Asker)
        → a.status ≡ s
        → admitted asker (validate_token identity workflow_id v tok (target_of trim s a) w).verdict
          ≡ ok who
        → Admits asker who
    unfolding validate_token admitted target_of
    validate_token-Admits unbound w asker who e h = absurd (ground (arith, h))
    validate_token-Admits no_access w asker who e h =
        asks (if v.function_id == "" then workflow_id else v.function_id) w asker who (by_service e)
          (subst (λ r. admitted asker r.verdict ≡ ok who) (if_enabled_lem w) h)
    validate_token-Admits bound w asker who e h = elim (Bool-cases (trim a.function_id == "")) [
      | inl b ↦ absurd (ground (arith, b, h))
      | inr b ↦ asks a.function_id w asker who (by_index e b) (
          subst (λ r. admitted asker r.verdict ≡ ok who) (for_function_lem a.function_id w)
            (ground (arith, b, h)))
    ]

    -- While the validator enforces, a request goes on only if it fails open, or Identity granted the
    -- function of the workflow's index, or that of the service where it has none, to the token or
    -- one with the same key; the user and the account are those that Identity named, where it
    -- named any. An index without a function admits nobody.
    pub authorize_idt-Admits :
        (w : W) (asker who : Asker)
        → v.observe_only ≡ false
        → (authorize_idt identity workflow_id
            (some v)
            tok
            (current_idt_target trim a)
            asker
            w).outcome
          ≡ ok who
        → Admits asker who
    unfolding authorize_idt observed enforced current_idt_target
    authorize_idt-Admits w asker who o h =
        validate_token-Admits a.status w asker who refl (ground (arith, checks, o, h))

    validate_token-Kept :
        (t : IdtTarget) (w : W)
        → Kept identity Grants v (validate_token identity workflow_id v tok t w).validator
    unfolding validate_token
    validate_token-Kept index_unbound w = (v.cache, refl, sound)
    validate_token-Kept (index_function fn) w =
        subst (λ r. Kept identity Grants v r.validator) (sym (for_function_lem fn w))
          (validate-Judges identity Grants v tok fn w answers sound).keeps
    validate_token-Kept app_default w =
        subst (λ r. Kept identity Grants v r.validator) (sym (if_enabled_lem w))
          (validate-Judges identity Grants v tok
            (if v.function_id == "" then workflow_id else v.function_id) w answers sound).keeps

    pub authorize_idt-Kept :
        (w : W) (asker : Asker)
        → v.observe_only ≡ false
        → (u : Validator) × ((authorize_idt identity workflow_id
              (some v)
              tok
              (current_idt_target trim a)
              asker
              w).idt_validator
            ≡ some u)
          × Kept identity Grants v u
    unfolding authorize_idt observed enforced
    authorize_idt-Kept w asker o = (
      (validate_token identity workflow_id v tok (current_idt_target trim a) w).validator,
      ground (arith, checks, o),
      validate_token-Kept (current_idt_target trim a) w,
    )
