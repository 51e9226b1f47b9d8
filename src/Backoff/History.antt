-- ===== src/Backoff/History.antt =====
-- What the entries say after any history of attempts.
use ai_usage_tracker.Prelude.{
  ℕ, suc, ◌+◌, ◌≡◌, refl, min, Bool, false, ltb, if◌then◌else◌, Option, List, [], ◌∷◌, arith, Text,
  text_eq, text_eq_iff,
}
use ai_usage_tracker.Prelude.Maps.{lookup, lookup-insert, lookup-remove}
use ai_usage_tracker.Backoff.{
  Entry, RefreshBackoff, failures_of, u32_max, failure_delay, record_failure, record_success,
  is_deferred,
}

-- An attempt to refresh an account, with the provider's hint, the time and the jitter of a failure.
pub data Attempt : Type 0 where
  failed : Text → Option ℕ → ℕ → (ℕ → ℕ) → Attempt
  succeeded : Text → Attempt

-- The attempts stand newest first.
unfoldable pub after : List Attempt → RefreshBackoff
after [] = []
after (failed a hint now scale ∷ past) = record_failure a hint now scale (after past)
after (succeeded a ∷ past) = record_success a (after past)

-- How often an account failed since it last succeeded.
unfoldable pub failures_in_a_row : Text → List Attempt → ℕ
failures_in_a_row a [] = 0
failures_in_a_row a (failed b hint now scale ∷ past) =
    if text_eq b a then suc (failures_in_a_row a past) else failures_in_a_row a past
failures_in_a_row a (succeeded b ∷ past) = if text_eq b a then 0 else failures_in_a_row a past

-- The entry that a failure writes.
abbrev entry : Text → Option ℕ → ℕ → (ℕ → ℕ) → List Attempt → Entry
entry b hint now scale past =
    let failures = min (failures_of (lookup b (after past)) + 1) u32_max in
    record { failures = failures; retry_at = now + failure_delay failures hint scale }

-- The count kept for an account is its number of failures in a row, up to the top of `u32`.
failures_of-after :
    (a : Text) (past : List Attempt)
    → failures_of (lookup a (after past)) ≡ min (failures_in_a_row a past) u32_max
unfolding after failures_in_a_row record_failure record_success lookup
failures_of-after a [] = refl
failures_of-after a (failed b hint now scale ∷ past) = ground (
  arith,
  text_eq_iff b a,
  lookup-insert b a (entry b hint now scale past) (after past),
  failures_of-after a past,
)
failures_of-after a (succeeded b ∷ past) =
    ground (arith, lookup-remove b a (after past), failures_of-after a past)

-- When an account is held back: its latest attempt failed, and the delay of its failures in a row
-- since then has not passed. Attempts of other accounts do not matter.
unfoldable pub held_back : Text → ℕ → List Attempt → Bool
unfolding failures_in_a_row
held_back a now [] = false
held_back a now (failed b hint at scale ∷ past) =
    if text_eq b a
    then ltb now (at + failure_delay (min (failures_in_a_row a past + 1) u32_max) hint scale)
    else held_back a now past
held_back a now (succeeded b ∷ past) = if text_eq b a then false else held_back a now past

-- After any history of attempts, an account is deferred exactly when it is to be held back.
pub is_deferred-after :
    (a : Text) (now : ℕ) (past : List Attempt)
    → is_deferred a now (after past) ≡ held_back a now past
unfolding after held_back is_deferred record_failure record_success lookup
is_deferred-after a now [] = refl
is_deferred-after a now (failed b hint at scale ∷ past) = ground (
  arith,
  text_eq_iff b a,
  lookup-insert b a (entry b hint at scale past) (after past),
  failures_of-after a past,
  is_deferred-after a now past,
)
is_deferred-after a now (succeeded b ∷ past) =
    ground (arith, lookup-remove b a (after past), is_deferred-after a now past)
