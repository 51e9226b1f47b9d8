-- ===== src/RefreshLoop.antt =====
-- src-tauri/src/refresh_loop.rs: when the accounts are refreshed, by the loop of the running program
-- and by a background run of a phone. Times, from an origin before all of them, and durations are
-- in seconds. The parser of RFC 3339 times is a parameter.
pub mod Background
pub mod Lateness
use ai_usage_tracker.Prelude.{
  ℕ, ◌+◌, ◌-◌, ◌*◌, Bool, true, false, not, ◌||◌, Option, none, some, List, [], ◌∷◌, ltb, leb,
  if◌then◌else◌, any_of, Text,
}
use ai_usage_tracker.Model.{Account, UsageSnapshot}
use ai_usage_tracker.Limits.{is_empty}

-- A last refresh that lies in the future is due, as the clock has stepped back.
unfoldable pub account_refresh_is_due : ℕ → ℕ → ℕ → Bool
account_refresh_is_due last_refresh now interval =
    ltb now last_refresh || leb interval (now - last_refresh)

abbrev pub background_due_slack : ℕ
background_due_slack = 2 * 60

abbrev pub refresh_poll_tick : ℕ
refresh_poll_tick = 30

abbrev pub later : Option ℕ → Option ℕ → Option ℕ
later none b = b
later (some a) none = some a
later (some a) (some b) = if ltb a b then some b else some a

module _ {F : Type 0} (parse_time : Text → Option ℕ) where
  unfoldable pub fetched_of : Account F → Option ℕ
  fetched_of account = elim account.last_usage [
    | none ↦ none
    | some usage ↦ parse_time usage.fetched_at
  ]

  -- The newest of the snapshots whose time can be read.
  unfoldable pub newest_of : List (Account F) → Option ℕ
  unfolding fetched_of
  newest_of [] = none
  newest_of (account ∷ rest) = later (fetched_of account) (newest_of rest)

  unfoldable pub background_refresh_is_due : List (Account F) → ℕ → ℕ → Bool
  unfolding newest_of account_refresh_is_due
  background_refresh_is_due accounts now interval =
      if is_empty accounts then false else elim (newest_of accounts) [
        | none ↦ true
        | some newest ↦ account_refresh_is_due newest now (interval - background_due_slack)
      ]

unfoldable pub credentials_look_readable : (Text → Bool) → List Text → Bool
credentials_look_readable can_read account_ids = is_empty account_ids || any_of can_read account_ids

-- What ends a wait of the loop.
pub data Wake : Type 0 where
  tick check schedule_change wakeup : Wake

unfoldable pub woken : Wake → Option ℕ → Option ℕ
woken wakeup last_refresh = none
woken tick last_refresh = last_refresh
woken check last_refresh = last_refresh
woken schedule_change last_refresh = last_refresh

-- A turn of the loop at the time `now`, and whether it refreshes.
unfoldable pub is_turn_due : ℕ → ℕ → Option ℕ → Bool
unfolding account_refresh_is_due
is_turn_due interval now none = true
is_turn_due interval now (some last_refresh) = account_refresh_is_due last_refresh now interval

-- The turns up to the first refresh, which is given with its time. Each turn has its time and
-- interval, and what ends its wait.
unfoldable pub first_refresh : Option ℕ → List (ℕ × ℕ × Wake) → Option ℕ
unfolding is_turn_due woken
first_refresh last_refresh [] = none
first_refresh last_refresh ((now, interval, wake) ∷ turns) =
    elim (is_turn_due interval now last_refresh) [
      | true ↦ some now
      | false ↦ first_refresh (woken wake last_refresh) turns
    ]
