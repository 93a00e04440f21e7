-- ===== src/Retry/Delay.antt =====
-- nextDelay of retry.go.
pub mod Laws
pub mod Examples
use ai_agent_go_service.Prelude.{ℕ, ◌-◌, ◌^◌, Bool, ◌&&◌, if◌then◌else◌}
use ai_agent_go_service.Prelude.Int.{ℤ, pos, negsuc, ltb_ℤ, mul64}
use ai_agent_go_service.Retry.Jitter.{with_jitter}
use ai_agent_go_service.Retry.Types.{Backoff, fixed, exponential, Policy}

-- The shift multiplies by a power of two, and the product wraps as `int64` does.
backoff_delay : Backoff → ℤ → ℕ → ℤ
backoff_delay fixed d attempt = d
backoff_delay exponential d attempt = mul64 d (2 ^ (attempt - 1))

capped_delay : ℤ → ℤ → ℤ
capped_delay cap d = if ltb_ℤ (pos 0) cap && ltb_ℤ cap d then cap else d

-- The delay before jitter.
pub raw_delay : Policy → ℕ → ℤ
unfolding backoff_delay capped_delay
raw_delay p attempt = capped_delay p.max_delay (backoff_delay p.backoff p.initial_delay attempt)

-- Only a delay above zero is jittered.
jitter_delay : ℕ → ℤ → ℤ
jitter_delay u (pos d) = pos (with_jitter u d)
jitter_delay u (negsuc n) = negsuc n

-- The random source is read only where the jitter applies. It gives u for `rng.Float64()`, which is
-- u / 2 ^ 53.
jittered {ℓ} : {W : Type ℓ} → (W → ℕ × W) → Bool → ℤ → W → ℤ × W
unfolding jitter_delay
jittered random wanted d w =
    if wanted && ltb_ℤ (pos 0) d then (let (u, w') = random w in (jitter_delay u d, w')) else (d, w)

pub next_delay {ℓ} : {W : Type ℓ} → (W → ℕ × W) → Policy → ℕ → W → ℤ × W
unfolding jittered
next_delay random p attempt w = jittered random p.jitter (raw_delay p attempt) w
