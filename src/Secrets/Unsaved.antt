-- ===== src/Secrets/Unsaved.antt =====
-- src-tauri/src/store/credentials: what comes of a secret whose write failed.
use ai_usage_tracker.Prelude.{◌≡◌, Bool, false, Text, text_eq}
use ai_usage_tracker.Secrets.{Call, saves, loads, deletes}

module _ {S : Type 0} (same_secret : S → S → Bool) where
  -- A call that neither saves nor deletes the account's secret.
  abbrev pub Spares : Text → Call S → Type 0
  Spares id (saves io j secret now) = text_eq j id ≡ false
  Spares id (loads io j now) = Unit {0}
  Spares id (deletes io j) = text_eq j id ≡ false
