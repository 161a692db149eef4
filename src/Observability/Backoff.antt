-- ===== src/Observability/Backoff.antt =====
-- packages/shared/src/observability/retry.ts: the backoff delay. `Math.random()` and the jitter ratio are
-- fractions, and the sum is rounded exactly, where the source rounds a double.
use native.Mathlib.Decide.{dec_le}
use native.Mathlib.Nat.{le-div_iff_mul-le, div-mul-le_self, pow-suc}
use cloudops_sentinel.Base.{
  ℕ, zero, suc, ◌+◌, ◌-◌, ◌*◌, ◌/◌, ◌^◌, ◌≤◌, ◌<◌, min, max, ◌≡◌, Option, none, get_or, arith,
}

pub record Fraction : Type 0 where
  pub num : ℕ
  pub den : ℕ

pub record BackoffOptions : Type 0 where
  pub attempt : ℕ
  pub base_ms : ℕ
  pub max_ms : ℕ
  pub jitter_ratio : Option Fraction

abbrev pub default_jitter : Fraction
default_jitter = record { num = 1; den = 5 }

unfoldable pub capped_exp : (attempt base_ms max_ms : ℕ) → ℕ
capped_exp attempt base_ms max_ms = min max_ms (base_ms * 2 ^ max 0 (attempt - 1))

-- Math.round(exp + exp * ratio * random), as a half-up division by twice the denominator.
round_jittered : ℕ → Fraction → Fraction → ℕ
round_jittered exp ratio random =
    let den = ratio.den * random.den in
    (2 * (exp * den + exp * (ratio.num * random.num)) + den) / (2 * den)

unfoldable pub exponential_backoff_with_jitter : BackoffOptions → Fraction → ℕ
unfolding round_jittered
exponential_backoff_with_jitter opts random =
    round_jittered (capped_exp opts.attempt opts.base_ms opts.max_ms)
      (get_or opts.jitter_ratio default_jitter) random

pub capped_exp-le : (attempt base_ms max_ms : ℕ) → capped_exp attempt base_ms max_ms ≤ max_ms
unfolding capped_exp
capped_exp-le attempt base_ms max_ms = omega arith

-- Each retry doubles the delay before the jitter, up to the maximum.
pub capped_exp-suc :
    (attempt base_ms max_ms : ℕ)
    → 0 < attempt
    → capped_exp (attempt + 1) base_ms max_ms ≡ min max_ms (2 * capped_exp attempt base_ms max_ms)
unfolding capped_exp
capped_exp-suc zero base_ms max_ms h = absurd (omega arith)
capped_exp-suc (suc n) base_ms max_ms h =
    let now : max 0 (suc n - 1) ≡ n = omega arith in
    let later : max 0 (suc n + 1 - 1) ≡ suc n = omega arith in
    rw (now, later, pow-suc) (omega arith)

mul_mono : (a b c : ℕ) → a ≤ b → a * c ≤ b * c
mul_mono a b c h = grind arith

scaled_bound :
    (q e r d : ℕ) → r < d → q * (10 * d) ≤ 10 * (e * d) + 2 * (e * r) + 5 * d → 5 * q ≤ 6 * e + 2
scaled_bound q e r d h k = elim (dec_le (5 * q) (6 * e + 2)) [
  | yes y ↦ y
  | no n ↦
      absurd
        (omega (arith, mul_mono (6 * e + 3) (5 * q) d (omega arith), mul_mono r d e (omega arith)))
]

round_jittered_bounds :
    (exp r d : ℕ)
    → r < d
    → (exp ≤ round_jittered exp default_jitter (record { num = r; den = d }))
      × (5 * round_jittered exp default_jitter (record { num = r; den = d }) ≤ 6 * exp + 2)
unfolding round_jittered
round_jittered_bounds exp r d h = (
  (le-div_iff_mul-le {k = 2 * (5 * d)} {x = exp} (omega arith)).1 (omega arith),
  scaled_bound _ exp r d h
      (omega (arith, div-mul-le_self (2 * (exp * (5 * d) + exp * (1 * r)) + 5 * d) (2 * (5 * d)))),
)

-- With the default jitter and a random fraction below 1, the delay is at least the capped
-- exponential, which is at most the maximum, and exceeds it by at most a fifth, rounded half up:
-- no delay is more than six fifths of the maximum.
pub backoff_bounds :
    (attempt base_ms max_ms : ℕ) (random : Fraction)
    → random.num < random.den
    → let delay =
        exponential_backoff_with_jitter
          (record { attempt = attempt; base_ms = base_ms; max_ms = max_ms; jitter_ratio = none })
          random in
      (capped_exp attempt base_ms max_ms ≤ delay)
      × (5 * delay ≤ 6 * capped_exp attempt base_ms max_ms + 2)
      × (5 * delay ≤ 6 * max_ms + 2)
unfolding exponential_backoff_with_jitter
backoff_bounds attempt base_ms max_ms random h =
    let (low, high) =
      round_jittered_bounds (capped_exp attempt base_ms max_ms) random.num random.den h in
    (low, high, omega (arith, high, capped_exp-le attempt base_ms max_ms))
