-- ===== src/Retry/Types.antt =====
-- types.go of pkg/workflow/engine/retry, and the errors of pkg/workflow/node that it classifies.
use ai_agent_go_service.Prelude.{ℕ, String, ◌==◌, Bool, List, [], ◌∷◌, Option, if◌then◌else◌}
use ai_agent_go_service.Prelude.Int.{ℤ}

pub data Backoff : Type 0 where
  fixed exponential : Backoff

pub data Class : Type 0 where
  transient timeout upstream validation permission stream_emitted : Class

-- The text of a class, as it stands in a workflow file.
unfoldable pub class_name : Class → String
class_name transient = "transient"
class_name timeout = "timeout"
class_name upstream = "upstream"
class_name validation = "validation"
class_name permission = "permission"
class_name stream_emitted = "stream-already-emitted"

abbrev pub all_classes : List Class
all_classes = transient ∷ timeout ∷ upstream ∷ validation ∷ permission ∷ []

-- Durations are `int64` nanoseconds. `max_attempts` is a natural number: ParsePolicy refuses
-- values below 1.
pub record Policy : Type 0 where
  pub max_attempts : ℕ
  pub backoff : Backoff
  pub initial_delay : ℤ
  pub max_delay : ℤ
  pub jitter : Bool
  pub retry_on : List Class
  pub per_attempt_timeout : ℤ
  pub total_budget : ℤ

pub data Decision : Type 0 where
  succeeded exhausted_retries not_retryable budget_expired cancelled : Decision

-- A Go error as the chain that `errors.As` and `errors.Is` walk: the sentinels and error types
-- that the classifier asks for, any other error by its text, and an error that wraps another.
pub data Failure : Type 0 where
  deadline_exceeded canceled : Failure
  tool_error : String → Bool → Failure → Failure
  tool_error_bare : String → Bool → Failure
  policy_denied : String → List String → Failure
  plain : String → Failure
  wrapped : String → Failure → Failure

-- What `Do` returns. No `last_class` is Go's empty class.
pub record Outcome (T : Type 0) : Type 0 where
  pub value : T
  pub error : Option Failure
  pub attempts : ℕ
  pub last_class : Option Class
  pub decision : Decision
  pub elapsed : ℤ

-- `Class(s)` kept by the `switch` on the known classes.
unfoldable pub class_of : String → Option Class
class_of s =
    if s == "transient"
    then Option.some transient
    else if s == "timeout"
    then Option.some timeout
    else if s == "upstream"
    then Option.some upstream
    else if s == "validation"
    then Option.some validation
    else if s == "permission"
    then Option.some permission
    else if s == "stream-already-emitted"
    then Option.some stream_emitted
    else Option.none

unfoldable pub is_class : Class → Class → Bool
unfolding class_name
is_class a b = class_name a == class_name b
