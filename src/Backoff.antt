-- ===== src/Backoff.antt =====
-- src-tauri/src/refresh_backoff.rs: how long automatic refreshes of a failing account wait. Times and
-- durations are counts of nanoseconds. `scale` is `mul_f64(1.0 + JITTER_FRACTION * jitter)` for the
-- clamped jitter of the call, an operation on floats that stays a parameter.
pub mod Delay
pub mod History
use ai_usage_tracker.Prelude.{
  ℕ, suc, ◌+◌, ◌-◌, ◌*◌, ◌^◌, ◌<◌, min, max, Bool, true, false, leb, ltb, if◌then◌else◌, Option,
  none, some, List, Text,
}
use ai_usage_tracker.Prelude.Maps

abbrev pub second : ℕ
second = 1_000_000_000

abbrev pub backoff_base : ℕ
backoff_base = 5 * 60 * second

abbrev pub backoff_max : ℕ
backoff_max = 60 * 60 * second

abbrev pub u32_max : ℕ
u32_max = 4_294_967_295

-- `saturating_mul` never saturates here: the product is at most 64 * 5 minutes.
unfoldable pub exponential : ℕ → ℕ
exponential failures = if leb failures 1 then 0 else backoff_base * 2 ^ min (failures - 2) 6

-- `retry_after.unwrap_or(Duration::ZERO)`
abbrev pub hinted : Option ℕ → ℕ
hinted none = 0
hinted (some hint) = hint

unfoldable pub failure_delay : ℕ → Option ℕ → (ℕ → ℕ) → ℕ
failure_delay failures retry_after scale =
    min (scale (min (max (exponential failures) (hinted retry_after)) backoff_max)) backoff_max

pub record Entry : Type 0 where
  pub failures : ℕ
  pub retry_at : ℕ

abbrev pub RefreshBackoff : Type 0
RefreshBackoff = List (Text × Entry)

-- `map_or(0, |entry| entry.failures)`
abbrev pub failures_of : Option Entry → ℕ
failures_of none = 0
failures_of (some entry) = entry.failures

unfoldable pub record_failure : Text → Option ℕ → ℕ → (ℕ → ℕ) → RefreshBackoff → RefreshBackoff
record_failure account_id retry_after now scale entries =
    let failures =
      min (elim (Maps.lookup account_id entries) [ none ↦ 0 | some entry ↦ entry.failures ] + 1)
        u32_max in
    Maps.insert account_id
      (record { failures = failures; retry_at = now + failure_delay failures retry_after scale })
      entries

unfoldable pub forget : Text → RefreshBackoff → RefreshBackoff
forget account_id entries = Maps.remove account_id entries

unfoldable pub record_success : Text → RefreshBackoff → RefreshBackoff
unfolding forget
record_success account_id entries = forget account_id entries

unfoldable pub is_deferred : Text → ℕ → RefreshBackoff → Bool
is_deferred account_id now entries = elim (Maps.lookup account_id entries) [
  | none ↦ false
  | some entry ↦ ltb now entry.retry_at
]
