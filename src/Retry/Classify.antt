-- ===== src/Retry/Classify.antt =====
-- classify.go: the retry class of an error. The regular expression of the fallback is Go's
-- `regexp`, so its verdict on a text is a parameter.
pub mod Laws
pub mod Examples
use ai_agent_go_service.Prelude.{
  String, Bool, true, false, List, Option, some, none, ◌||◌, if◌then◌else◌,
}
use ai_agent_go_service.Retry.Types.{
  Class, timeout, transient, upstream, validation, permission, Failure, deadline_exceeded, canceled,
  tool_error, tool_error_bare, policy_denied, plain, wrapped, class_of,
}

-- `errors.As(err, &te)`: the code and the flag of the first ToolError of the chain.
unfoldable pub as_tool_error : Failure → Option (String × Bool)
as_tool_error (tool_error code retryable cause) = some (code, retryable)
as_tool_error (tool_error_bare code retryable) = some (code, retryable)
as_tool_error (wrapped text cause) = as_tool_error cause
as_tool_error _ = none

-- `errors.Is(err, context.DeadlineExceeded)`
unfoldable pub is_deadline : Failure → Bool
is_deadline deadline_exceeded = true
is_deadline (wrapped text cause) = is_deadline cause
is_deadline (tool_error code retryable cause) = is_deadline cause
is_deadline _ = false

-- `errors.Is(err, context.Canceled)`
unfoldable pub is_canceled : Failure → Bool
is_canceled canceled = true
is_canceled (wrapped text cause) = is_canceled cause
is_canceled (tool_error code retryable cause) = is_canceled cause
is_canceled _ = false

-- `errors.As(err, &pde)`
unfoldable pub is_policy_denied : Failure → Bool
is_policy_denied (policy_denied reason indices) = true
is_policy_denied (wrapped text cause) = is_policy_denied cause
is_policy_denied (tool_error code retryable cause) = is_policy_denied cause
is_policy_denied _ = false

-- The indices of the error that `errors.As(err, &pde)` finds.
unfoldable pub allowed_indices : Failure → Option (List String)
allowed_indices (policy_denied reason indices) = some indices
allowed_indices (wrapped text cause) = allowed_indices cause
allowed_indices (tool_error code retryable cause) = allowed_indices cause
allowed_indices _ = none

class_of_code : Option Class → Class
class_of_code (some c) = c
class_of_code none = upstream

-- `matches err.Error()` is the verdict of `httpTransientPattern`.
module _ (matches : Failure → Bool) where
  untyped_class : Failure → Class
  untyped_class e =
      if is_deadline e
      then timeout
      else if is_canceled e
      then validation
      else if is_policy_denied e
      then permission
      else if matches e
      then transient
      else validation

  classify_tool : Option (String × Bool) → Failure → Class
  classify_tool (some (code, true)) e = class_of_code (class_of code)
  classify_tool (some (code, false)) e = validation
  classify_tool none e = untyped_class e

  unfoldable pub classify : Failure → Class
  unfolding untyped_class classify_tool class_of_code
  classify e = classify_tool (as_tool_error e) e
