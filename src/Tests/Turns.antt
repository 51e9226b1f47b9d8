-- ===== src/Tests/Turns.antt =====
-- The refresh loop: turns up to a refresh, and a background run.
use ai_usage_tracker.Prelude.{
  ℕ, ◌≡◌, ◌≢◌, ◌<◌, ◌≤◌, refl, false, Option, none, some, List, [], ◌∷◌, Text, codes, arith, not,
  ◌&&◌, all_of, length, inl, inr,
}
use ai_usage_tracker.Model.{Account, UsageFreshness}
use ai_usage_tracker.Limits.{is_empty}
use ai_usage_tracker.RefreshLoop.{
  Wake, tick, check, wakeup, first_refresh, background_refresh_is_due, fetched_of,
}
use ai_usage_tracker.RefreshLoop.Lateness.{IsPaced, first_refresh_in_time}
use ai_usage_tracker.RefreshLoop.Background.{AllPast, is_old, background_refresh_is_due_lem}
use ai_usage_tracker.Tests.Samples.{alpha, beta}

abbrev some_turns : List (ℕ × ℕ × Wake)
some_turns = (1030, 60, tick) ∷ (1055, 60, check) ∷ (1085, 60, tick) ∷ []

tick-not_wakeup : tick ≢ wakeup
tick-not_wakeup e = cc

check-not_wakeup : check ≢ wakeup
check-not_wakeup e = cc

paced : IsPaced 1000 60 some_turns
paced = (
  omega arith,
  omega arith,
  refl,
  tick-not_wakeup,
  (
    omega arith,
    omega arith,
    refl,
    check-not_wakeup,
    (omega arith, omega arith, refl, tick-not_wakeup, tt),
  ),
)

first_refresh_in_time_example :
    (at : ℕ) × (first_refresh (some 1000) some_turns ≡ some at) × (1060 ≤ at) × (at < 1090)
first_refresh_in_time_example =
    first_refresh_in_time 1000 60 1000 some_turns (omega arith) (omega arith) paced
      (inr (inr (inl (omega arith))))

-- The last refresh is at 1000 seconds: a wakeup refreshes at the next turn.
wakeup_refreshes :
    first_refresh (some 1000) ((1030, 60, wakeup) ∷ (1031, 60, tick) ∷ []) ≡ some 1031
unfolding first_refresh
wakeup_refreshes = refl

abbrev fetched : Account ℕ → Text → Account ℕ
fetched account at = record account {
  last_usage = some (record {
    plan = none;
    email = none;
    windows = [];
    credits_usd = none;
    unlimited_credits = false;
    fetched_at = at;
    freshness = UsageFreshness.live;
    source = codes "api";
  });
}

abbrev two_accounts : List (Account ℕ)
two_accounts = fetched alpha (codes "later") ∷ fetched beta (codes "now") ∷ []

-- A time is as many seconds as its text has letters.
abbrev parse_sample : Text → Option ℕ
parse_sample s = some (length s)

past : AllPast parse_sample 1000 two_accounts
unfolding fetched_of
past = (omega arith, (omega arith, tt))

background_refresh_is_due_lem_example :
    background_refresh_is_due parse_sample two_accounts 1000 900 ≡ (
      not (is_empty two_accounts)
      && all_of (λ account. is_old 1000 780 (fetched_of parse_sample account)) two_accounts)
background_refresh_is_due_lem_example =
    background_refresh_is_due_lem parse_sample two_accounts 1000 900 past
