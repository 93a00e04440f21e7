-- ===== src/Retry/Policy/Accepts.antt =====
-- Which decoded retry blocks are accepted.
use ai_agent_go_service.Prelude.{
  ℕ, String, ◌==◌, ◌≡◌, refl, ◌∙◌, ap, Bool, true, false, ◌&&◌, ◌||◌, List, [], ◌∷◌, Option, some,
  none, Result, ok, err, ◌>>=◌, elem, arith,
}
use ai_agent_go_service.Prelude.Int.{ℤ, pos, negsuc, ltb_ℤ}
use ai_agent_go_service.Retry.Types.{Policy, Class, class_of}
use ai_agent_go_service.Retry.Policy.{
  RawPolicy, PolicyError, named_classes, parse_classes, set_max_attempts, set_backoff,
  duration_field, set_initial_delay, set_max_delay, set_retry_on, set_timeout, set_budget,
  build_policy,
}

abbrev pub is_ok {ℓ} : {E A : Type ℓ} → Result E A → Bool
is_ok (ok a) = true
is_ok (err e) = false

abbrev attempts_fit : Option ℤ → Bool
attempts_fit none = true
attempts_fit (some n) = ltb_ℤ (pos 0) n && ltb_ℤ n (pos 11)

abbrev backoff_known : String → Bool
backoff_known s = s == "" || s == "fixed" || s == "exponential"

abbrev not_negative : Option ℤ → Bool
not_negative none = true
not_negative (some (pos n)) = true
not_negative (some (negsuc n)) = false

abbrev is_known : Option Class → Bool
is_known none = false
is_known (some c) = true

abbrev all_known : List String → Bool
all_known [] = true
all_known (s ∷ ss) = is_known (class_of s) && all_known ss

abbrev classes_known : Option (List String) → Bool
classes_known none = true
classes_known (some ss) = elem "all" ss || all_known ss

-- What a block has to satisfy, field by field.
abbrev pub is_acceptable : RawPolicy → Bool
is_acceptable r =
    attempts_fit r.max_attempts
    && (backoff_known r.backoff
        && (not_negative r.initial_delay_ms
            && (not_negative r.max_delay_ms
                && (classes_known r.retry_on
                    && (not_negative r.per_attempt_timeout_seconds
                        && not_negative r.total_budget_seconds)))))

is_ok-bind :
    {A B : Type 0} (m : Result PolicyError A) (k : A → Result PolicyError B) {a b : Bool}
    → is_ok m ≡ a
    → ((x : A) → is_ok (k x) ≡ b)
    → is_ok (m >>= k) ≡ (a && b)
is_ok-bind (ok x) k {a} {b} hm hk = hk x ∙ ap (λ t. t && b) hm
is_ok-bind (err e) k {a} {b} hm hk = ap (λ t. t && b) hm

module _ (p : Policy) where
  set_max_attempts-ok : (o : Option ℤ) → is_ok (set_max_attempts o p) ≡ attempts_fit o
  unfolding set_max_attempts
  set_max_attempts-ok none = refl
  set_max_attempts-ok (some n) = ground arith

  set_backoff-ok : (s : String) → is_ok (set_backoff s p) ≡ backoff_known s
  unfolding set_backoff
  set_backoff-ok s = ground arith

  duration_field-ok :
      (o : Option ℤ) (unit : ℕ) (e : ℤ → PolicyError) (set : ℤ → Policy)
      → is_ok (duration_field o unit e set p) ≡ not_negative o
  unfolding duration_field
  duration_field-ok none unit e set = refl
  duration_field-ok (some (pos n)) unit e set = ground arith
  duration_field-ok (some (negsuc n)) unit e set = ground arith

  set_initial_delay-ok : (o : Option ℤ) → is_ok (set_initial_delay o p) ≡ not_negative o
  unfolding set_initial_delay
  set_initial_delay-ok o = duration_field-ok o _ _ _

  set_max_delay-ok : (o : Option ℤ) → is_ok (set_max_delay o p) ≡ not_negative o
  unfolding set_max_delay
  set_max_delay-ok o = duration_field-ok o _ _ _

  set_timeout-ok : (o : Option ℤ) → is_ok (set_timeout o p) ≡ not_negative o
  unfolding set_timeout
  set_timeout-ok o = duration_field-ok o _ _ _

  set_budget-ok : (o : Option ℤ) → is_ok (set_budget o p) ≡ not_negative o
  unfolding set_budget
  set_budget-ok o = duration_field-ok o _ _ _

named_classes-ok : (ss : List String) → is_ok (named_classes ss) ≡ all_known ss
unfolding named_classes
named_classes-ok [] = refl
named_classes-ok (s ∷ ss) = ground (arith, named_classes-ok ss)

set_retry_on-ok :
    (o : Option (List String)) (p : Policy) → is_ok (set_retry_on o p) ≡ classes_known o
unfolding set_retry_on parse_classes
set_retry_on-ok none p = refl
set_retry_on-ok (some ss) p = ground (arith, named_classes-ok ss)

-- A block is accepted exactly if each of its fields is absent or in range: 1 to 10 attempts, a
-- known backoff, no negative duration, and known classes or "all".
pub build_policy-accepts : (r : RawPolicy) → is_ok (build_policy r) ≡ is_acceptable r
unfolding build_policy
build_policy-accepts r = is_ok-bind _ _ (set_max_attempts-ok _ r.max_attempts) λ a.
    is_ok-bind _ _ (set_backoff-ok _ r.backoff) λ b.
      is_ok-bind _ _ (set_initial_delay-ok _ r.initial_delay_ms) λ c.
        is_ok-bind _ _ (set_max_delay-ok _ r.max_delay_ms) λ d.
          is_ok-bind _ _ (set_retry_on-ok r.retry_on _) λ e.
            is_ok-bind _ _ (set_timeout-ok _ r.per_attempt_timeout_seconds)
              λ f. set_budget-ok f r.total_budget_seconds
