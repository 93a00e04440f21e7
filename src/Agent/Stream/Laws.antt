-- ===== src/Agent/Stream/Laws.antt =====
-- What becomes of a stream that breaks off after its first event.
use ai_agent_go_service.Prelude.{
  ◌≡◌, refl, sym, subst, ap, Bool, true, false, List, ◌∷◌, Option, some, none, ◌⊎◌, inl, inr, arith,
}
use ai_agent_go_service.Retry.Types.{
  Failure, tool_error, stream_emitted, validation, class_name, Policy,
}
use ai_agent_go_service.Retry.Classify.{classify, as_tool_error}
use ai_agent_go_service.Retry.Classify.Laws.{classify-not_retryable}
use ai_agent_go_service.Retry.Policy.{in_retry_on}
use ai_agent_go_service.Agent.Stream.{
  Signals, stream_closed, context_done, llm_error, llm_event, or_last, marked, attempt,
  stream_attempt,
}

Marked : Failure → Type 0
Marked e = (c : Failure) × (e ≡ tool_error (class_name stream_emitted) false c)

marked-Marked : (o : Option Failure) (e : Failure) → marked true o ≡ some e → Marked e
unfolding marked Marked
marked-Marked (some c) e h = (c, ground arith)
marked-Marked none e h = absurd (ground arith)

Marked-classify :
    (matches : Failure → Bool) (e : Failure) → Marked e → classify matches e ≡ validation
unfolding Marked as_tool_error
Marked-classify matches e (c, q) =
    classify-not_retryable matches (class_name stream_emitted) e
      (subst (λ x. as_tool_error x ≡ some (class_name stream_emitted, false)) (sym q) refl)

module _ {E : Type 0} where
  -- The stream ends by closing, not by the context.
  abbrev pub is_closed : Signals E → Bool
  is_closed (stream_closed e) = true
  is_closed (context_done e) = false
  is_closed (llm_error e rest) = is_closed rest
  is_closed (llm_event ev rest) = is_closed rest

  attempt-Marked :
      (emitted : Bool) (last : Option Failure) (signals : Signals E) (e : Failure)
      → is_closed signals ≡ true
      → (attempt E emitted last signals).1 ≡ some e
      → (emitted ≡ true)
        ⊎ ((ev : E) × (evs : List E) × ((attempt E emitted last signals).0 ≡ ev ∷ evs))
      → Marked e
  unfolding attempt
  attempt-Marked emitted last (stream_closed o) e c h (inl t) =
      marked-Marked (or_last o last) e (subst (λ b. marked b (or_last o last) ≡ some e) t h)
  attempt-Marked emitted last (stream_closed o) e c h (inr (ev, evs, q)) = absurd (ground arith)
  attempt-Marked emitted last (context_done o) e c h x = absurd (ground arith)
  attempt-Marked emitted last (llm_error o rest) e c h x =
      attempt-Marked emitted (some o) rest e c h x
  attempt-Marked emitted last (llm_event ev rest) e c h x =
      attempt-Marked true last rest e c h (inl refl)

  -- A stream that forwarded an event and then closed with an error is retried exactly under the
  -- policies that retry validation errors.
  pub stream_attempt-retried :
      (matches : Failure → Bool) (p : Option Policy) (signals : Signals E) (ev : E) (evs : List E)
      (e : Failure)
      → is_closed signals ≡ true
      → stream_attempt E signals ≡ (ev ∷ evs, some e)
      → in_retry_on p (classify matches e) ≡ in_retry_on p validation
  unfolding stream_attempt
  stream_attempt-retried matches p signals ev evs e c h = ap (in_retry_on p) (
      Marked-classify matches e
        (attempt-Marked false none signals e c (ap (λ r. r.1) h) (inr (ev, evs, ap (λ r. r.0) h))))
