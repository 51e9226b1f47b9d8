-- ===== src/Accounts/Numbers.antt =====
-- src-tauri/src/model.rs: an account with the floating point numbers of its usage left out. JSON keeps
-- them only about: serde_json rounds when it reads, and writes one that is not finite as null.
use ai_usage_tracker.Prelude.{
  ℕ, ◌≡◌, refl, sym, ap, ◌∙◌, Bool, none, some, List, [], ◌∷◌, map, All, Text, inl, inr,
  Option-cases,
}
use ai_usage_tracker.Model.{UsageWindow, UsageSnapshot, Account}
use ai_usage_tracker.Windows.{classify_window, classify_usage, classify_windows}
use ai_usage_tracker.Accounts.{AccountFile}
use ai_usage_tracker.Accounts.Classified.{IsClassified, map-classify_self}

module _ {F : Type 0} where
  unfoldable pub window_without_numbers : UsageWindow F → UsageWindow F
  window_without_numbers window = record window { used_percent = none; remaining_percent = none }

  unfoldable pub usage_without_numbers : UsageSnapshot F → UsageSnapshot F
  usage_without_numbers usage = record usage {
    windows = map window_without_numbers usage.windows;
    credits_usd = none;
  }

  unfoldable pub without_numbers : Account F → Account F
  without_numbers account = record account {
    last_usage = elim account.last_usage [
      | none ↦ none
      | some usage ↦ some (usage_without_numbers usage)
    ];
  }

  -- What is compared of two account files.
  abbrev pub listed : AccountFile F → List (Account F)
  listed file = map without_numbers file.accounts

  module _ (is_alphanumeric : ℕ → Bool) (to_lowercase : Text → Text) where
    windows-swap :
        (ws : List (UsageWindow F))
        → map window_without_numbers (map (classify_window is_alphanumeric to_lowercase) ws)
          ≡ map (classify_window is_alphanumeric to_lowercase) (map window_without_numbers ws)
    unfolding window_without_numbers classify_window
    windows-swap [] = refl
    windows-swap (w ∷ ws) = rw (windows-swap ws) refl

    usage-swap :
        (usage : UsageSnapshot F)
        → usage_without_numbers (classify_usage is_alphanumeric to_lowercase usage)
          ≡ classify_usage is_alphanumeric to_lowercase (usage_without_numbers usage)
    unfolding usage_without_numbers classify_usage
    usage-swap usage = rw (windows-swap usage.windows) refl

    account-swap :
        (a : Account F)
        → without_numbers (classify_windows is_alphanumeric to_lowercase a)
          ≡ classify_windows is_alphanumeric to_lowercase (without_numbers a)
    unfolding without_numbers classify_windows
    account-swap a = elim (Option-cases a.last_usage) [
      | inl e ↦ rw e refl
      | inr (u, e) ↦ rw (e, usage-swap u) refl
    ]

    accounts-swap :
        (as' : List (Account F))
        → map without_numbers (map (classify_windows is_alphanumeric to_lowercase) as')
          ≡ map (classify_windows is_alphanumeric to_lowercase) (map without_numbers as')
    accounts-swap [] = refl
    accounts-swap (a ∷ as') = rw (account-swap a, accounts-swap as') refl

    -- The kinds do not depend on the numbers.
    pub classify-listed :
        (xs ys : List (Account F))
        → All (IsClassified is_alphanumeric to_lowercase) ys
        → map without_numbers xs ≡ map without_numbers ys
        → map without_numbers (map (classify_windows is_alphanumeric to_lowercase) xs)
          ≡ map without_numbers ys
    classify-listed xs ys h e =
        accounts-swap xs
        ∙ ap (map (classify_windows is_alphanumeric to_lowercase)) e
        ∙ sym (accounts-swap ys)
        ∙ ap (map without_numbers) (map-classify_self is_alphanumeric to_lowercase ys h)
