-- ===== src/Retry/Jitter.antt =====
-- The jitter of nextDelay in retry.go, `float64(d) * (0.5 + rng.Float64()*0.5)` for a delay above zero,
-- in the arithmetic of float64 for numbers that are not negative: a result is rounded to 53 binary
-- digits, to even in a tie.
pub mod Laws
use ai_agent_go_service.Prelude.{
  ℕ, zero, suc, ◌+◌, ◌*◌, ◌/◌, ◌%◌, ◌^◌, Bool, ◌&&◌, ◌||◌, ltb, eqb, if◌then◌else◌,
}

-- The multiple of the unit that is next to x, the even one in a tie.
round_to : ℕ → ℕ → ℕ
round_to unit x =
    let q = x / unit in
    let r = x % unit in
    if ltb (2 * r) unit || (eqb (2 * r) unit && eqb (q % 2) 0) then q * unit else (q + 1) * unit

-- The unit is doubled until 53 digits are left.
round_from : ℕ → ℕ → ℕ → ℕ
unfolding round_to
round_from zero unit x = round_to unit x
round_from (suc more) unit x =
    let wider = round_from more (2 * unit) x in
    if ltb (x / unit) (2 ^ 53) then round_to unit x else wider

-- As a float64, for x below 2 ^ 117.
pub to_float64 : ℕ → ℕ
unfolding round_from
to_float64 x = round_from 64 1 x

-- `rng.Float64()` is u / 2 ^ 53 with u below 2 ^ 53, and the factor is this over 2 ^ 54.
pub jitter_factor : ℕ → ℕ
unfolding to_float64
jitter_factor u = to_float64 (2 ^ 53 + u)

-- The product, cut off at the point.
unfoldable pub with_jitter : ℕ → ℕ → ℕ
unfolding jitter_factor to_float64
with_jitter u d = to_float64 (to_float64 d * jitter_factor u) / 2 ^ 54
