-- ===== src/Retry/Jitter/Laws.antt =====
-- Rounding does not pass a bound that is a float64 itself, so the jitter lengthens no delay.
use ai_agent_go_service.Prelude.{
  ℕ, zero, suc, ◌+◌, ◌*◌, ◌/◌, ◌%◌, ◌^◌, ◌≤◌, ◌<◌, ◌≡◌, sym, ap, ◌∙◌, subst, ◌||◌, ◌&&◌, ltb, eqb,
  true, false, Bool-cases, inl, inr, arith,
}
use native.Mathlib.Nat.{mul-le-mul_left, lt_of_mul-lt-mul_left, div-add-mod, pow-succ', mul_assoc}
use ai_agent_go_service.Retry.Jitter.{round_to, round_from, to_float64, jitter_factor, with_jitter}

-- A multiple that lies below a larger number than x does not pass a multiple that x does not pass.
next_multiple-le :
    (unit q r x y : ℕ) → unit * q + r ≡ x → 0 < r → x ≤ unit * y → (q + 1) * unit ≤ unit * y
next_multiple-le unit q r x y e positive le =
    let below : q < y = lt_of_mul-lt-mul_left unit (omega (arith, e, positive, le)) in
    omega (arith, mul-le-mul_left {m = q + 1} {n = y} unit (omega arith))

round_to-le : (unit x y : ℕ) → 0 < unit → x ≤ unit * y → round_to unit x ≤ unit * y
unfolding round_to
round_to-le unit x y h le =
    let q = x / unit in
    let r = x % unit in
    elim (Bool-cases (ltb (2 * r) unit || (eqb (2 * r) unit && eqb (q % 2) 0))) [
      | inl t ↦ rw t (omega (arith, div-add-mod x unit, le))
      | inr f ↦ rw f (next_multiple-le unit q r x y (div-add-mod x unit) (up f) le)
    ]
  where
    up :
        ltb (2 * (x % unit)) unit || (eqb (2 * (x % unit)) unit && eqb (x / unit % 2) 0) ≡ false
        → 0 < x % unit
    up f = ground (arith, h)

-- The unit divides the bound.
divided-le :
    (j unit x y : ℕ) → unit * 2 ^ j ≡ 2 ^ 54 → x ≤ 2 ^ 54 * y → round_to unit x ≤ 2 ^ 54 * y
divided-le j unit x y e le =
    let split : unit * (2 ^ j * y) ≡ 2 ^ 54 * y =
      sym (mul_assoc unit (2 ^ j) y) ∙ ap (λ n. n * y) e in
    subst (λ n. round_to unit x ≤ n) split
      (round_to-le unit x (2 ^ j * y) (unit_positive unit e) (subst (λ n. x ≤ n) (sym split) le))
  where
    unit_positive : (unit : ℕ) → unit * 2 ^ j ≡ 2 ^ 54 → 0 < unit
    unit_positive zero e = absurd (omega (arith, e))
    unit_positive (suc n) e = omega arith

doubled : (unit j : ℕ) → unit * 2 ^ suc j ≡ 2 ^ 54 → 2 * unit * 2 ^ j ≡ 2 ^ 54
doubled unit j e =
    let q : unit * (2 * 2 ^ j) ≡ 2 ^ 54 = subst (λ n. unit * n ≡ 2 ^ 54) (pow-succ' 2 j) e in
    omega (arith, q)

round_from-le :
    (more j unit x y : ℕ)
    → j ≤ more
    → unit * 2 ^ j ≡ 2 ^ 54
    → x < 2 ^ 107
    → x ≤ 2 ^ 54 * y
    → round_from more unit x ≤ 2 ^ 54 * y
unfolding round_from
round_from-le zero j unit x y low e h le = divided-le j unit x y e le
round_from-le (suc more) zero unit x y low e h le =
    let whole : unit ≡ 2 ^ 54 = omega (arith, e) in
    let fits : ltb (x / unit) (2 ^ 53) ≡ true = rw whole (ground (arith, h)) in
    rw fits (divided-le 0 unit x y e le)
round_from-le (suc more) (suc j) unit x y low e h le = elim (Bool-cases (ltb (x / unit) (2 ^ 53))) [
  | inl t ↦ rw t (divided-le (suc j) unit x y e le)
  | inr f ↦ rw f (round_from-le more j (2 * unit) x y (omega (arith, low)) (doubled unit j e) h le)
]

to_float64-le : (x y : ℕ) → x < 2 ^ 107 → x ≤ 2 ^ 54 * y → to_float64 x ≤ 2 ^ 54 * y
unfolding to_float64
to_float64-le x y h le = round_from-le 64 54 1 x y (omega arith) (omega arith) h le

-- Below 2 ^ 53 all is exact.
round_to-one : (x : ℕ) → round_to 1 x ≡ x
unfolding round_to
round_to-one x = ground arith

round_from-exact : (more x : ℕ) → x < 2 ^ 53 → round_from (suc more) 1 x ≡ x
unfolding round_from
round_from-exact more x h =
    let t : ltb (x / 1) (2 ^ 53) ≡ true = ground (arith, h) in rw t (round_to-one x)

to_float64-exact : (x : ℕ) → x < 2 ^ 53 → to_float64 x ≡ x
unfolding to_float64
to_float64-exact x h = round_from-exact 63 x h

jitter_factor-le : (u : ℕ) → u < 2 ^ 53 → jitter_factor u ≤ 2 ^ 54
unfolding jitter_factor
jitter_factor-le u h =
    omega (arith, to_float64-le (2 ^ 53 + u) 1 (omega (arith, h)) (omega (arith, h)))

-- The jitter lengthens no delay below 2 ^ 53 nanoseconds.
pub with_jitter-le : (u d : ℕ) → u < 2 ^ 53 → d < 2 ^ 53 → with_jitter u d ≤ d
unfolding with_jitter
with_jitter-le u d hu hd =
    let f = jitter_factor u in
    let le : d * f ≤ 2 ^ 54 * d = omega (arith, mul-le-mul_left d (jitter_factor-le u hu)) in
    rw (to_float64-exact d hd)
      (quotient (to_float64 (d * f)) (to_float64-le (d * f) d (omega (arith, le, hd)) le))
  where
    quotient : (n : ℕ) → n ≤ 2 ^ 54 * d → n / 2 ^ 54 ≤ d
    quotient n h = omega arith
