-- ===== src/Tests/Stores.antt =====
-- Imported accounts, sign-ins, alerts and credentials in pieces.
use ai_usage_tracker.Prelude.{
  ℕ, ◌≡◌, ◌≤◌, Bool, true, List, [], ◌∷◌, All, Text, codes, text_eq, if◌then◌else◌, ok, arith,
  utf16_len,
}
use ai_usage_tracker.Sanitize.{sanitize_imported_account}
use ai_usage_tracker.Sanitize.Bounds.{AccountWithin, sanitize_imported_account-AccountWithin}
use ai_usage_tracker.Secrets.{SecretStore, Call, saves, loads, deletes}
use ai_usage_tracker.Alerts.{UsageAlertSetting, get_settings, store_settings, sort_settings}
use ai_usage_tracker.Alerts.Settings.{get-store_settings}
use ai_usage_tracker.Chunks.{split_utf16_chunks, joined, split_utf16_chunks_lem}
use ai_usage_tracker.Tests.Samples.{alpha}

abbrev small : ℕ → Bool
small n = true

sanitize_imported_account-AccountWithin_example :
    AccountWithin small (sanitize_imported_account small alpha)
sanitize_imported_account-AccountWithin_example =
    sanitize_imported_account-AccountWithin small alpha

abbrev no_secrets : SecretStore Text
no_secrets = record { cache = []; vault = [] }

abbrev between : List (Call Text)
between =
    loads (ok tt) (codes "a") 1000
    ∷ saves (ok tt) (codes "b") (codes "other") 2000
    ∷ deletes (ok tt) (codes "c")
    ∷ []

abbrev weekly_setting : UsageAlertSetting
weekly_setting = record { window_id = codes "weekly"; enabled = true; threshold_percent = 10 }

abbrev five_hour_setting : UsageAlertSetting
five_hour_setting = record { window_id = codes "five_hour"; enabled = true; threshold_percent = 20 }

get-store_settings_example :
    get_settings
      (codes "a")
      (store_settings (codes "a") (weekly_setting ∷ five_hour_setting ∷ []) [])
    ≡ (if text_eq (codes "a") (codes "a")
        then sort_settings (λ s. s.window_id) (weekly_setting ∷ five_hour_setting ∷ [])
        else get_settings (codes "a") [])
get-store_settings_example =
    get-store_settings (codes "a") (codes "a") (weekly_setting ∷ five_hour_setting ∷ []) []

split_utf16_chunks_lem_example :
    (joined (split_utf16_chunks (codes "secret") 4) ≡ codes "secret")
    × All (λ (chunk : Text). utf16_len chunk ≤ 4) (split_utf16_chunks (codes "secret") 4)
split_utf16_chunks_lem_example = split_utf16_chunks_lem (codes "secret") 4 (omega arith)
