-- ===== src/Backoff/Delay.antt =====
-- The delay after a number of failures: its cap, its growth and the provider's hint.
use ai_usage_tracker.Prelude.{
  ℕ, suc, ◌+◌, ◌-◌, ◌*◌, ◌<◌, ◌≤◌, ◌≡◌, min, max, Option, none, some, arith,
}
use ai_usage_tracker.Backoff.{backoff_base, backoff_max, exponential, hinted, failure_delay}
use native.Mathlib.Nat.{pow-suc, pow-le-pow_right}
use native.Mathlib.Decide.{dec_lt}

-- What `mul_f64` by a factor of at least 1 does.
pub record IsScale (scale : ℕ → ℕ) : Type 0 where
  pub grows : (d : ℕ) → d ≤ scale d
  pub mono : (c d : ℕ) → c ≤ d → scale c ≤ scale d

exponential_mono : (few many : ℕ) → few ≤ many → exponential few ≤ exponential many
unfolding exponential
exponential_mono few many h =
    let shorter : min (few - 2) 6 ≤ min (many - 2) 6 = omega arith in
    ground (arith, pow-le-pow_right {n = 2} (omega arith) shorter)

exponential_doubles : (k : ℕ) → k < 6 → exponential (k + 3) ≡ 2 * exponential (k + 2)
unfolding exponential
exponential_doubles k h =
    let next : min (k + 3 - 2) 6 ≡ suc k = omega arith in
    let this : min (k + 2 - 2) 6 ≡ k = omega arith in rw (next, this, pow-suc 2 k) (ground arith)

exponential_full : (n : ℕ) → 8 ≤ n → exponential n ≡ backoff_base * 64
unfolding exponential
exponential_full n h = let full : min (n - 2) 6 ≡ 6 = omega arith in rw full (ground arith)

-- Never longer than an hour, whatever the hint and the jitter.
pub failure_delay-le :
    (failures : ℕ) (retry_after : Option ℕ) (scale : ℕ → ℕ)
    → failure_delay failures retry_after scale ≤ backoff_max
unfolding failure_delay
failure_delay-le failures retry_after scale = omega arith

-- Where the jitter shortens no delay and keeps their order, more failures give no shorter delay.
failure_delay_mono :
    (few many : ℕ) (retry_after : Option ℕ) (scale : ℕ → ℕ)
    → IsScale scale
    → few ≤ many
    → failure_delay few retry_after scale ≤ failure_delay many retry_after scale
unfolding failure_delay
failure_delay_mono few many retry_after scale s h =
    let grown =
      s.mono (min (max (exponential few) (hinted retry_after)) backoff_max)
        (min (max (exponential many) (hinted retry_after)) backoff_max)
        (omega (arith, exponential_mono few many h)) in
    omega (arith, grown)

-- Where the jitter shortens no delay and keeps their order, a hint of at most an hour is waited for
-- in full, also on the first failure.
hint-le-failure_delay :
    (failures hint : ℕ) (scale : ℕ → ℕ)
    → IsScale scale
    → hint ≤ backoff_max
    → hint ≤ failure_delay failures (some hint) scale
unfolding failure_delay
hint-le-failure_delay failures hint scale s h =
    omega (arith, s.grows (min (max (exponential failures) hint) backoff_max))

-- With no hint and no jitter each failure past the second doubles the wait, up to the cap.
failure_delay_doubles :
    (failures : ℕ)
    → failure_delay (failures + 3) none (λ d. d)
      ≡ min (2 * failure_delay (failures + 2) none (λ d. d)) backoff_max
unfolding failure_delay
failure_delay_doubles failures = elim (dec_lt failures 6) [
  | yes few ↦ omega (arith, exponential_doubles failures few)
  | no many ↦ omega (
    arith,
    exponential_full (failures + 2) (omega arith),
    exponential_full (failures + 3) (omega arith),
  )
]
