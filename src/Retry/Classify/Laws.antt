-- ===== src/Retry/Classify/Laws.antt =====
-- What the classifier of classify.go promises of the errors that tools and streams return.
use ai_agent_go_service.Prelude.{
  String, ◌≡◌, refl, Bool, true, false, some, arith, eq_iff, Option-cases, inl, inr,
}
use ai_agent_go_service.Retry.Types.{
  Class, stream_emitted, validation, Failure, class_name, class_of,
}
use ai_agent_go_service.Retry.Classify.{classify, as_tool_error, classify_tool}

-- A text that is taken for a class is that class's name.
pub class_of_sound : (s : String) (c : Class) → class_of s ≡ some c → s ≡ class_name c
unfolding class_of class_name
class_of_sound s c h = ground (
  arith,
  eq_iff s "transient",
  eq_iff s "timeout",
  eq_iff s "upstream",
  eq_iff s "validation",
  eq_iff s "permission",
  eq_iff s "stream-already-emitted",
)

pub class_of-class_name : (c : Class) → class_of (class_name c) ≡ some c
unfolding class_of class_name
class_of-class_name Class.transient = refl
class_of-class_name _ = refl

module _ (matches : Failure → Bool) where
  -- Only a retryable ToolError that carries the code gets the class of a broken-off stream.
  pub classify-stream_emitted :
      (e : Failure)
      → classify matches e ≡ stream_emitted
      → as_tool_error e ≡ some ("stream-already-emitted", true)
  unfolding classify class_name
  classify-stream_emitted e h = elim (Option-cases (as_tool_error e)) [
    | inl n ↦ absurd (ground arith)
    | inr ((code, true), t) ↦ ground (arith, class_of_sound code stream_emitted)
    | inr ((code, false), t) ↦ absurd (ground arith)
  ]

  -- However often it is wrapped, a ToolError that is not retryable is a validation error.
  pub classify-not_retryable :
      (code : String) (e : Failure)
      → as_tool_error e ≡ some (code, false)
      → classify matches e ≡ validation
  unfolding classify
  classify-not_retryable code e h = rw (h, classify_tool)
