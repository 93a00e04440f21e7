-- ===== src/Retry/Policy/Laws.antt =====
-- Which retry blocks `ParsePolicy` accepts, and what holds of the policies that it returns.
use ai_agent_go_service.Prelude.{
  ℕ, subst, ◌*◌, ◌≤◌, ◌<◌, String, ◌≡◌, refl, Bool, false, List, Option, some, none, Result, ok,
  err, ◌>>=◌, arith, Bool-cases, inl, inr,
}
use ai_agent_go_service.Prelude.Int.{ℤ, pos, negsuc, ltb_ℤ, ◌≤ℤ◌, mul64, mul64_fits}
use ai_agent_go_service.Retry.Types.{Policy}
use ai_agent_go_service.Retry.Policy.{
  RawPolicy, PolicyError, millisecond, second, default_policy, set_max_attempts, set_backoff,
  duration_field, set_initial_delay, set_max_delay, set_jitter, set_retry_on, set_timeout,
  set_budget, build_policy,
}

-- Every value that a computation returns satisfies P.
abbrev Returns : {A : Type 0} → (A → Type 0) → Result PolicyError A → Type 0
Returns {A} P m = (a : A) → m ≡ ok a → P a

Returns-bind :
    {A B : Type 0} {P : A → Type 0} {Q : B → Type 0} (m : Result PolicyError A)
    (k : A → Result PolicyError B)
    → Returns P m
    → ((a : A) → P a → Returns Q (k a))
    → Returns Q (m >>= k)
Returns-bind (ok a) k hm hk = hk a (hm a refl)
Returns-bind (err e) k hm hk = λ b h. cc

-- A duration field whose nanoseconds fit an int64.
abbrev pub FitsField : Option ℤ → ℕ → Type 0
FitsField none unit = Unit
FitsField (some (pos n)) unit = n * unit < 9223372036854775808
FitsField (some (negsuc n)) unit = Unit

pub record Fits (r : RawPolicy) : Type 0 where
  pub initial : FitsField r.initial_delay_ms millisecond
  pub max : FitsField r.max_delay_ms millisecond
  pub timeout : FitsField r.per_attempt_timeout_seconds second
  pub budget : FitsField r.total_budget_seconds second

pub record IsValid (p : Policy) : Type 0 where
  pub some_attempt : 1 ≤ p.max_attempts
  pub few_attempts : p.max_attempts ≤ 10
  pub initial : pos 0 ≤ℤ p.initial_delay
  pub max : pos 0 ≤ℤ p.max_delay
  pub timeout : pos 0 ≤ℤ p.per_attempt_timeout
  pub budget : pos 0 ≤ℤ p.total_budget

default_policy-IsValid : IsValid default_policy
unfolding default_policy
default_policy-IsValid = omega arith

set_max_attempts-IsValid :
    (o : Option ℤ) (p : Policy) → IsValid p → Returns IsValid (set_max_attempts o p)
unfolding set_max_attempts
set_max_attempts-IsValid o p v q h = ground arith

set_backoff-IsValid : (s : String) (p : Policy) → IsValid p → Returns IsValid (set_backoff s p)
unfolding set_backoff
set_backoff-IsValid s p v q h = ground arith

-- A checked duration is at least 0, since its product fits.
duration-nonneg :
    (n : ℤ) (unit : ℕ) → FitsField (some n) unit → ltb_ℤ n (pos 0) ≡ false → pos 0 ≤ℤ mul64 n unit
duration-nonneg (pos n) unit h k = rw (mul64_fits n unit h) (omega arith)
duration-nonneg (negsuc n) unit h k = absurd (ground arith)

Returns-ok : {A : Type 0} (P : A → Type 0) {a : A} → P a → Returns P (ok a)
Returns-ok P h b e = subst P (cc) h

module _ (unit : ℕ) (e : ℤ → PolicyError) (set : ℤ → Policy) (p : Policy) (v : IsValid p)
    (sets : (d : ℤ) → pos 0 ≤ℤ d → IsValid (set d)) where
  duration_field-IsValid :
      (o : Option ℤ) → FitsField o unit → Returns IsValid (duration_field o unit e set p)
  unfolding duration_field
  duration_field-IsValid none h = Returns-ok IsValid v
  duration_field-IsValid (some n) h = elim (Bool-cases (ltb_ℤ n (pos 0))) [
    | inl neg ↦ rw neg (λ q x. cc)
    | inr nonneg ↦
        rw nonneg (Returns-ok IsValid (sets (mul64 n unit) (duration-nonneg n unit h nonneg)))
  ]

module _ (o : Option ℤ) (p : Policy) (v : IsValid p) where
  set_initial_delay-IsValid : FitsField o millisecond → Returns IsValid (set_initial_delay o p)
  unfolding set_initial_delay
  set_initial_delay-IsValid =
      duration_field-IsValid _ _ _ p v
        (λ d h. record {
          some_attempt = v.some_attempt;
          few_attempts = v.few_attempts;
          initial = h;
          max = v.max;
          timeout = v.timeout;
          budget = v.budget;
        })
        o

  set_max_delay-IsValid : FitsField o millisecond → Returns IsValid (set_max_delay o p)
  unfolding set_max_delay
  set_max_delay-IsValid =
      duration_field-IsValid _ _ _ p v
        (λ d h. record {
          some_attempt = v.some_attempt;
          few_attempts = v.few_attempts;
          initial = v.initial;
          max = h;
          timeout = v.timeout;
          budget = v.budget;
        })
        o

  set_timeout-IsValid : FitsField o second → Returns IsValid (set_timeout o p)
  unfolding set_timeout
  set_timeout-IsValid =
      duration_field-IsValid _ _ _ p v
        (λ d h. record {
          some_attempt = v.some_attempt;
          few_attempts = v.few_attempts;
          initial = v.initial;
          max = v.max;
          timeout = h;
          budget = v.budget;
        })
        o

  set_budget-IsValid : FitsField o second → Returns IsValid (set_budget o p)
  unfolding set_budget
  set_budget-IsValid =
      duration_field-IsValid _ _ _ p v
        (λ d h. record {
          some_attempt = v.some_attempt;
          few_attempts = v.few_attempts;
          initial = v.initial;
          max = v.max;
          timeout = v.timeout;
          budget = h;
        })
        o

set_retry_on-IsValid :
    (o : Option (List String)) (p : Policy) → IsValid p → Returns IsValid (set_retry_on o p)
unfolding set_retry_on
set_retry_on-IsValid none p v q h = ground arith
set_retry_on-IsValid (some ss) p v q h = ground arith

set_jitter-IsValid : (o : Option Bool) (p : Policy) → IsValid p → IsValid (set_jitter o p)
unfolding set_jitter
set_jitter-IsValid none p v = v
set_jitter-IsValid (some b) p v = omega arith

-- The policy that a block describes has between one and ten attempts, and no negative duration.
pub build_policy-IsValid : (r : RawPolicy) (p : Policy) → Fits r → build_policy r ≡ ok p → IsValid p
unfolding build_policy
build_policy-IsValid r p fits =
    Returns-bind (set_max_attempts r.max_attempts default_policy) _
      (set_max_attempts-IsValid r.max_attempts default_policy default_policy-IsValid)
      (λ a va.
        Returns-bind (set_backoff r.backoff a) _ (set_backoff-IsValid r.backoff a va) (λ b vb.
          Returns-bind (set_initial_delay r.initial_delay_ms b) _
            (set_initial_delay-IsValid r.initial_delay_ms b vb fits.initial)
            (λ c vc.
              Returns-bind (set_max_delay r.max_delay_ms c) _
                (set_max_delay-IsValid r.max_delay_ms c vc fits.max)
                (λ d vd.
                  Returns-bind (set_retry_on r.retry_on (set_jitter r.jitter d)) _
                    (set_retry_on-IsValid r.retry_on (set_jitter r.jitter d)
                      (set_jitter-IsValid r.jitter d vd))
                    (λ e ve.
                      Returns-bind (set_timeout r.per_attempt_timeout_seconds e) _
                        (set_timeout-IsValid r.per_attempt_timeout_seconds e ve fits.timeout)
                        (λ f vf. set_budget-IsValid r.total_budget_seconds f vf fits.budget))))))
      p
