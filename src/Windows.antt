-- ===== src/Windows.antt =====
-- src-tauri/src/model.rs: the kind of a usage window, worked out from its id, its label and its
-- length. `char::is_alphanumeric` and `str::to_lowercase` are std's, for all of Unicode, and are
-- parameters.
use ai_usage_tracker.Prelude.{
  ℕ, ◌≡◌, refl, Bool, true, false, not, ◌&&◌, ◌||◌, Option, none, some, List, [], ◌∷◌, map, ◌==◌,
  leb, if◌then◌else◌, Text, codes, text_eq, keep, any_of, eq_ignore_ascii_case,
}
use ai_usage_tracker.Prelude.Split.{split_on, is_nonempty}
use ai_usage_tracker.Model.{
  WindowKind, five_hour, weekly, monthly, UsageWindow, UsageSnapshot, Account,
}

abbrev pub five_hour_window_seconds : ℕ
five_hour_window_seconds = 18000

abbrev pub weekly_window_seconds : ℕ
weekly_window_seconds = 604800

-- `MONTHLY_WINDOW_SECONDS.contains`
abbrev pub is_monthly_length : ℕ → Bool
is_monthly_length s = leb 2000000 s && leb s 2700000

-- One row of `KIND_PHRASES`, its phrases as lists of tokens.
unfoldable pub kind_phrases : WindowKind → List (List Text)
kind_phrases five_hour =
    (codes "5h" ∷ [])
    ∷ (codes "5hr" ∷ [])
    ∷ (codes "5" ∷ codes "hour" ∷ [])
    ∷ (codes "five" ∷ codes "hour" ∷ [])
    ∷ []
kind_phrases weekly =
    (codes "weekly" ∷ [])
    ∷ (codes "7d" ∷ [])
    ∷ (codes "7" ∷ codes "day" ∷ [])
    ∷ (codes "seven" ∷ codes "day" ∷ [])
    ∷ []
kind_phrases monthly =
    (codes "monthly" ∷ [])
    ∷ (codes "30d" ∷ [])
    ∷ (codes "30" ∷ codes "day" ∷ [])
    ∷ (codes "thirty" ∷ codes "day" ∷ [])
    ∷ []

-- The `match` on a token of `name_tokens`.
unfoldable pub singular : Text → Text
singular token =
    if text_eq token (codes "hours")
    then codes "hour"
    else if text_eq token (codes "days")
    then codes "day"
    else token

-- Does the phrase stand at the head of the tokens?
unfoldable pub stands_first : List Text → List Text → Bool
stands_first [] tokens = true
stands_first (expected ∷ phrase) [] = false
stands_first (expected ∷ phrase) (token ∷ tokens) =
    text_eq token expected && stands_first phrase tokens

-- `tokens.windows(phrase.len()).any(..)`, for a phrase that is not empty.
unfoldable pub mentions : List Text → List Text → Bool
unfolding stands_first
mentions [] phrase = false
mentions (token ∷ tokens) phrase = stands_first phrase (token ∷ tokens) || mentions tokens phrase

unfoldable pub by_length : WindowKind → Option ℕ → Bool
by_length kind none = false
by_length five_hour (some s) = s == five_hour_window_seconds
by_length weekly (some s) = s == weekly_window_seconds
by_length monthly (some s) = is_monthly_length s

-- `*kind == Self::FiveHour && id.eq_ignore_ascii_case("rolling")`
unfoldable pub by_id : WindowKind → Text → Bool
by_id five_hour id = eq_ignore_ascii_case id (codes "rolling")
by_id weekly id = false
by_id monthly id = false

module _ (is_alphanumeric : ℕ → Bool) (to_lowercase : Text → Text) where
  unfoldable pub name_tokens : Text → List Text
  name_tokens text =
      map singular (keep is_nonempty (split_on (λ c. not (is_alphanumeric c)) (to_lowercase text)))

  -- Is the window of this kind, by its length, its name or its id?
  unfoldable pub is_kind : Text → Text → Option ℕ → WindowKind → Bool
  is_kind id label window_seconds kind =
      by_length kind window_seconds
      || any_of (λ phrase. mentions (name_tokens id) phrase || mentions (name_tokens label) phrase)
          (kind_phrases kind)
      || by_id kind id

  -- `WindowKind::classify`
  unfoldable pub classify : Text → Text → Option ℕ → Option WindowKind
  classify id label window_seconds =
      if is_kind id label window_seconds five_hour
      then some five_hour
      else if is_kind id label window_seconds weekly
      then some weekly
      else if is_kind id label window_seconds monthly
      then some monthly
      else none

  module _ {F : Type 0} where
    -- `UsageWindow::classify`
    unfoldable pub classify_window : UsageWindow F → UsageWindow F
    classify_window window = record window {
      kind = classify window.id window.label window.window_seconds;
    }

    unfoldable pub classify_usage : UsageSnapshot F → UsageSnapshot F
    classify_usage usage = record usage { windows = map classify_window usage.windows }

    -- `Account::classify_windows`
    unfoldable pub classify_windows : Account F → Account F
    classify_windows account = record account {
      last_usage = elim account.last_usage [
        | none ↦ none
        | some usage ↦ some (classify_usage usage)
      ];
    }

    classify_twice :
        (ws : List (UsageWindow F))
        → map classify_window (map classify_window ws) ≡ map classify_window ws
    unfolding classify_window
    classify_twice [] = refl
    classify_twice (w ∷ ws) = rw (classify_twice ws) refl

    pub classify_usage_twice :
        (usage : UsageSnapshot F) → classify_usage (classify_usage usage) ≡ classify_usage usage
    unfolding classify_usage
    classify_usage_twice usage = rw (classify_twice usage.windows) refl
