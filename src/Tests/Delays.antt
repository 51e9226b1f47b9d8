-- ===== src/Tests/Delays.antt =====
-- The backoff of failing accounts.
use ai_usage_tracker.Prelude.{◌+◌, ◌≡◌, refl, ◌*◌, true, none, List, [], ◌∷◌, codes, text_eq}
use ai_usage_tracker.Backoff.{second, exponential, failure_delay, is_deferred}
use ai_usage_tracker.Backoff.History.{
  Attempt, failed, succeeded, after, failures_in_a_row, held_back, is_deferred-after,
}

-- 5, 10, 20 and 40 minutes, then an hour.
delays :
    failure_delay 2 none (λ d. d)
      + failure_delay 3 none (λ d. d)
      + failure_delay 4 none (λ d. d)
      + failure_delay 5 none (λ d. d)
      + failure_delay 6 none (λ d. d)
    ≡ (5 + 10 + 20 + 40 + 60) * 60 * second
unfolding failure_delay exponential
delays = refl

abbrev past : List Attempt
past =
    failed (codes "a") none (20 * second) (λ d. d)
    ∷ succeeded (codes "b")
    ∷ failed (codes "a") none (10 * second) (λ d. d)
    ∷ succeeded (codes "a")
    ∷ []

is_deferred-after_example :
    is_deferred (codes "a") (300 * second) (after past) ≡ held_back (codes "a") (300 * second) past
is_deferred-after_example = is_deferred-after (codes "a") (300 * second) past

held : held_back (codes "a") (300 * second) past ≡ true
unfolding held_back text_eq failures_in_a_row failure_delay exponential
held = refl
