-- ===== src/Retry/Policy.antt =====
-- policy.go: the retry block of a node, decoded and checked. `json.Unmarshal` is a parameter.
pub mod Laws
pub mod Accepts
pub mod Classes
pub mod Examples
use ai_agent_go_service.Prelude.{
  ℕ, ◌*◌, ltb, String, ◌==◌, Bool, true, false, ◌||◌, List, [], ◌∷◌, Option, some, none, Result, ok,
  err, ◌>>=◌, if◌then◌else◌, elem,
}
use ai_agent_go_service.Prelude.Int.{ℤ, pos, ltb_ℤ, pos_part, mul64}
use ai_agent_go_service.Retry.Types.{
  Backoff, fixed, exponential, Class, transient, timeout, all_classes, Policy, class_of, is_class,
}

-- The JSON shape of the block; an absent field is `none`, and an absent text is empty.
pub record RawPolicy : Type 0 where
  pub max_attempts : Option ℤ
  pub backoff : String
  pub initial_delay_ms : Option ℤ
  pub max_delay_ms : Option ℤ
  pub jitter : Option Bool
  pub retry_on : Option (List String)
  pub per_attempt_timeout_seconds : Option ℤ
  pub total_budget_seconds : Option ℤ

pub data PolicyError : Type 0 where
  parse_failed : PolicyError
  attempts_out_of_range : ℤ → PolicyError
  unknown_backoff : String → PolicyError
  negative_initial_delay negative_max_delay negative_timeout negative_budget : ℤ → PolicyError
  unknown_class : String → PolicyError

-- time.Millisecond and time.Second
abbrev pub millisecond : ℕ
millisecond = 1000000

abbrev pub second : ℕ
second = 1000000000

unfoldable pub default_policy : Policy
default_policy = record {
  max_attempts = 3;
  backoff = exponential;
  initial_delay = pos (500 * millisecond);
  max_delay = pos (5 * second);
  jitter = true;
  retry_on = transient ∷ timeout ∷ [];
  per_attempt_timeout = pos 0;
  total_budget = pos 0;
}

keep_class :
    Option Class → String → Result PolicyError (List Class) → Result PolicyError (List Class)
keep_class none s rest = err (unknown_class s)
keep_class (some c) s rest = do cs ← rest; ok (c ∷ cs)

-- The second loop of `parseClasses`: the first unknown text is the error.
named_classes : List String → Result PolicyError (List Class)
unfolding keep_class
named_classes [] = ok []
named_classes (s ∷ ss) = keep_class (class_of s) s (named_classes ss)

unfoldable pub parse_classes : List String → Result PolicyError (List Class)
unfolding named_classes
parse_classes ss = if elem "all" ss then ok all_classes else named_classes ss

set_max_attempts : Option ℤ → Policy → Result PolicyError Policy
set_max_attempts none p = ok p
set_max_attempts (some n) p =
    if ltb_ℤ n (pos 1) || ltb_ℤ (pos 10) n
    then err (attempts_out_of_range n)
    else ok (record p { max_attempts = pos_part n })

set_backoff : String → Policy → Result PolicyError Policy
set_backoff s p =
    if s == ""
    then ok p
    else if s == "fixed"
    then ok (record p { backoff = fixed })
    else if s == "exponential"
    then ok (record p { backoff = exponential })
    else err (unknown_backoff s)

-- The four duration fields are checked and scaled alike: a negative value is the error `e`.
duration_field :
    Option ℤ → ℕ → (ℤ → PolicyError) → (ℤ → Policy) → Policy → Result PolicyError Policy
duration_field none unit e set p = ok p
duration_field (some n) unit e set p =
    if ltb_ℤ n (pos 0) then err (e n) else ok (set (mul64 n unit))

set_initial_delay : Option ℤ → Policy → Result PolicyError Policy
unfolding duration_field
set_initial_delay o p =
    duration_field o millisecond negative_initial_delay (λ d. record p { initial_delay = d }) p

set_max_delay : Option ℤ → Policy → Result PolicyError Policy
unfolding duration_field
set_max_delay o p =
    duration_field o millisecond negative_max_delay (λ d. record p { max_delay = d }) p

set_jitter : Option Bool → Policy → Policy
set_jitter none p = p
set_jitter (some b) p = record p { jitter = b }

set_retry_on : Option (List String) → Policy → Result PolicyError Policy
set_retry_on none p = ok p
set_retry_on (some ss) p = do cs ← parse_classes ss; ok (record p { retry_on = cs })

set_timeout : Option ℤ → Policy → Result PolicyError Policy
unfolding duration_field
set_timeout o p =
    duration_field o second negative_timeout (λ d. record p { per_attempt_timeout = d }) p

set_budget : Option ℤ → Policy → Result PolicyError Policy
unfolding duration_field
set_budget o p = duration_field o second negative_budget (λ d. record p { total_budget = d }) p

-- The checks of `ParsePolicy` on a decoded block, in the order of the source.
unfoldable pub build_policy : RawPolicy → Result PolicyError Policy
unfolding set_max_attempts set_backoff set_initial_delay set_max_delay set_jitter set_retry_on
    set_timeout set_budget
build_policy r = do
  p ← set_max_attempts r.max_attempts default_policy
  p ← set_backoff r.backoff p
  p ← set_initial_delay r.initial_delay_ms p
  p ← set_max_delay r.max_delay_ms p
  p ← set_retry_on r.retry_on (set_jitter r.jitter p)
  p ← set_timeout r.per_attempt_timeout_seconds p
  set_budget r.total_budget_seconds p

some_policy : Result PolicyError Policy → Result PolicyError (Option Policy)
some_policy (ok p) = ok (some p)
some_policy (err e) = err e

decoded : Option RawPolicy → Result PolicyError (Option Policy)
unfolding some_policy
decoded none = err parse_failed
decoded (some r) = some_policy (build_policy r)

-- `ParsePolicy`: no block, an empty one and `null` mean no policy.
unfoldable pub parse_policy :
    (String → Option RawPolicy) → String → Result PolicyError (Option Policy)
unfolding decoded
parse_policy unmarshal raw = if raw == "" || raw == "null" then ok none else decoded (unmarshal raw)

pub retried_by : List Class → Class → Bool
retried_by [] c = false
retried_by (x ∷ xs) c = is_class x c || retried_by xs c

-- `InRetryOn` and `IsRetryEnabled`, whose receiver may be nil.
unfoldable pub in_retry_on : Option Policy → Class → Bool
unfolding retried_by
in_retry_on none c = false
in_retry_on (some p) c = retried_by p.retry_on c

unfoldable pub is_retry_enabled : Option Policy → Bool
is_retry_enabled none = false
is_retry_enabled (some p) = ltb 1 p.max_attempts
