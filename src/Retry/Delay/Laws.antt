-- ===== src/Retry/Delay/Laws.antt =====
-- Bounds on the delay between two attempts.
use ai_agent_go_service.Prelude.{
  ℕ, ◌-◌, ◌*◌, ◌^◌, ◌<◌, ◌≤◌, ◌≡◌, Bool, true, ◌&&◌, arith, Bool-cases, inl, inr,
}
use Prim.Native.Nat.{min}
use ai_agent_go_service.Prelude.Int.{ℤ, pos, negsuc, ltb_ℤ, mul64, mul64_fits, wrap64, ◌≤ℤ◌}
use ai_agent_go_service.Retry.Types.{exponential, Policy}
use ai_agent_go_service.Retry.Jitter.Laws.{with_jitter-le}
use ai_agent_go_service.Retry.Delay.{
  backoff_delay, capped_delay, jitter_delay, jittered, raw_delay, next_delay,
}

-- A positive cap bounds every delay, also one whose product wrapped round.
capped_delay-le : (m : ℕ) (d : ℤ) → 0 < m → capped_delay (pos m) d ≤ℤ pos m
unfolding capped_delay
capped_delay-le m d h = ground arith

capped_delay-eq : (m n : ℕ) → 0 < m → capped_delay (pos m) (pos n) ≡ pos (min n m)
unfolding capped_delay
capped_delay-eq m n h = ground arith

raw_delay-le :
    (p : Policy) (attempt m : ℕ) → p.max_delay ≡ pos m → 0 < m → raw_delay p attempt ≤ℤ pos m
unfolding raw_delay
raw_delay-le p attempt m e h = rw e (capped_delay-le m _ h)

jitter_delay-le :
    (u m : ℕ) (d : ℤ) → u < 2 ^ 53 → m < 2 ^ 53 → d ≤ℤ pos m → jitter_delay u d ≤ℤ pos m
unfolding jitter_delay
jitter_delay-le u m (pos d) hu hm h = omega (arith, h, with_jitter-le u d hu (omega (arith, h, hm)))
jitter_delay-le u m (negsuc n) hu hm h = h

jittered-le :
    {W : Type 0} (random : W → ℕ × W) (wanted : Bool) (d : ℤ) (w : W) (m : ℕ)
    → (random w).0 < 2 ^ 53
    → m < 2 ^ 53
    → d ≤ℤ pos m
    → (jittered random wanted d w).0 ≤ℤ pos m
unfolding jittered
jittered-le random wanted d w m hu hm h = elim (Bool-cases (wanted && ltb_ℤ (pos 0) d)) [
  | inl t ↦ rw t (jitter_delay-le (random w).0 m d hu hm h)
  | inr f ↦ rw f h
]

-- With a positive maximal delay below 2 ^ 53 nanoseconds, which is about 104 days, no delay exceeds
-- the maximum, whatever the attempt, the backoff, the initial delay and the random number, and with
-- the jitter as it is rounded in float64. The random numbers are below 1.
pub next_delay-le :
    {W : Type 0} (random : W → ℕ × W) (p : Policy) (attempt : ℕ) (w : W) (m : ℕ)
    → p.max_delay ≡ pos m
    → 0 < m
    → m < 2 ^ 53
    → ((w : W) → (random w).0 < 2 ^ 53)
    → (next_delay random p attempt w).0 ≤ℤ pos m
unfolding next_delay
next_delay-le random p attempt w m e h fits below =
    jittered-le random p.jitter (raw_delay p attempt) w m (below w) fits
      (raw_delay-le p attempt m e h)

-- With exponential backoff, an initial delay that is not negative, a positive maximum and no
-- overflow, the delay is the initial one doubled for each attempt after the first, up to the
-- maximum.
pub raw_delay-doubles :
    (p : Policy) (attempt n m : ℕ)
    → p.backoff ≡ exponential
    → p.initial_delay ≡ pos n
    → p.max_delay ≡ pos m
    → 0 < m
    → n * 2 ^ (attempt - 1) < 9223372036854775808
    → raw_delay p attempt ≡ pos (min (n * 2 ^ (attempt - 1)) m)
unfolding raw_delay
raw_delay-doubles p attempt n m b i c h fits =
    rw (b, i, c, backoff_delay, mul64_fits n _ fits) (capped_delay-eq m _ h)

wrapped-negative :
    (m x : ℕ)
    → 9223372036854775808 ≤ x
    → x < 18446744073709551616
    → ltb_ℤ (capped_delay (pos m) (wrap64 (pos x))) (pos 0) ≡ true
unfolding capped_delay
wrapped-negative m x low high = ground arith

-- With exponential backoff and a maximal delay that is not negative, an initial delay whose
-- multiple for the attempt is at least 2 ^ 63 and below 2 ^ 64 wraps to a negative delay.
pub raw_delay-overflow :
    (p : Policy) (attempt n m : ℕ)
    → p.backoff ≡ exponential
    → p.initial_delay ≡ pos n
    → p.max_delay ≡ pos m
    → 9223372036854775808 ≤ n * 2 ^ (attempt - 1)
    → n * 2 ^ (attempt - 1) < 18446744073709551616
    → ltb_ℤ (raw_delay p attempt) (pos 0) ≡ true
unfolding raw_delay mul64
raw_delay-overflow p attempt n m b i c low high =
    rw (b, i, c, backoff_delay, mul64) (wrapped-negative m (n * 2 ^ (attempt - 1)) low high)

-- What drawing a random number leaves alone, computing a delay leaves alone.
pub next_delay_keeps :
    {W : Type 0} (random : W → ℕ × W) (p : Policy) (k : ℕ) (calls : W → ℕ)
    → ((w : W) → calls (random w).1 ≡ calls w)
    → (w : W) → calls (next_delay random p k w).1 ≡ calls w
unfolding next_delay jittered
next_delay_keeps random p k calls h w = ground (arith, h w)

-- The same of a predicate that drawing preserves.
pub next_delay_holds :
    {W : Type 0} (random : W → ℕ × W) (p : Policy) (k : ℕ) (P : W → Type 0)
    → ((w : W) → P w → P (random w).1)
    → (w : W) → P w
    → P (next_delay random p k w).1
unfolding next_delay jittered
next_delay_holds random p k P h w start =
    elim (Bool-cases (p.jitter && ltb_ℤ (pos 0) (raw_delay p k))) [
      | inl t ↦ rw t (h w start)
      | inr f ↦ rw f start
    ]
