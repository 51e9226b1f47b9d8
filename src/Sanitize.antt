-- ===== src/Sanitize.antt =====
-- src-tauri/src/limits.rs: the bounds put on an account that a pairing peer sends, and on an email
-- that is typed in. `f64::is_finite` is a parameter.
pub mod Bounds
use ai_usage_tracker.Prelude.{
  ℕ, ◌*◌, Bool, true, false, not, Option, none, some, map, ltb, if◌then◌else◌, length, take, Text,
  trim, Result, ok, err,
}
use ai_usage_tracker.Model.{Account, UsageWindow, UsageSnapshot, display_name}
use ai_usage_tracker.Limits.{
  clamp_chars, is_empty, max_label_chars, max_email_chars, max_identity_chars, max_timestamp_chars,
  max_status_message_chars, max_usage_windows, max_window_text_chars,
}

abbrev pub max_ui_state_bytes : ℕ
max_ui_state_bytes = 64 * 1024

unfoldable pub clamp_option : ℕ → Option Text → Option Text
clamp_option max none = none
clamp_option max (some text) = some (clamp_chars max text)

-- The error texts: the state does not serialize, or it is too large.
pub data UiStateError : Type 0 where
  invalid_ui_state : Text → UiStateError
  too_large : UiStateError

-- `to_vec` is what serde_json makes of the state.
unfoldable pub check_ui_state_size : Result Text Text → Result UiStateError (Unit {0})
check_ui_state_size (err e) = err (invalid_ui_state e)
check_ui_state_size (ok bytes) =
    if ltb max_ui_state_bytes (length bytes) then err too_large else ok tt

-- The error is that the email is too long.
unfoldable pub normalize_optional_email : Option Text → Result (Unit {0}) (Option Text)
normalize_optional_email none = ok none
normalize_optional_email (some email) =
    if is_empty (trim email)
    then ok none
    else if ltb max_email_chars (length (trim email))
    then err tt
    else ok (some (trim email))

module _ {F : Type 0} (is_finite : F → Bool) where
  unfoldable pub finite_or_none : Option F → Option F
  finite_or_none none = none
  finite_or_none (some number) = if is_finite number then some number else none

  unfoldable pub sanitize_window : UsageWindow F → UsageWindow F
  unfolding clamp_option finite_or_none
  sanitize_window window = record window {
    id = clamp_chars max_window_text_chars window.id;
    label = clamp_chars max_window_text_chars window.label;
    resets_at = clamp_option max_timestamp_chars window.resets_at;
    used_percent = finite_or_none window.used_percent;
    remaining_percent = finite_or_none window.remaining_percent;
  }

  unfoldable pub sanitize_usage : UsageSnapshot F → UsageSnapshot F
  unfolding clamp_option finite_or_none
  sanitize_usage usage = record usage {
    plan = clamp_option max_identity_chars usage.plan;
    email = clamp_option max_email_chars usage.email;
    fetched_at = clamp_chars max_timestamp_chars usage.fetched_at;
    source = clamp_chars max_identity_chars usage.source;
    credits_usd = finite_or_none usage.credits_usd;
    windows = map sanitize_window (take max_usage_windows usage.windows);
  }

  unfoldable pub sanitize_last_usage : Option (UsageSnapshot F) → Option (UsageSnapshot F)
  sanitize_last_usage none = none
  sanitize_last_usage (some usage) = some (sanitize_usage usage)

  unfoldable pub sanitize_imported_account : Account F → Account F
  unfolding clamp_option
  sanitize_imported_account account =
      let trimmed = trim account.label in
      let label = if is_empty trimmed then display_name account.provider else trimmed in
      record account {
        label = clamp_chars max_label_chars label;
        email = clamp_option max_email_chars account.email;
        provider_account_id = clamp_option max_identity_chars account.provider_account_id;
        chatgpt_account_id = clamp_option max_identity_chars account.chatgpt_account_id;
        plan = clamp_option max_identity_chars account.plan;
        created_at = clamp_chars max_timestamp_chars account.created_at;
        updated_at = clamp_chars max_timestamp_chars account.updated_at;
        last_error = clamp_option max_status_message_chars account.last_error;
        last_usage = sanitize_last_usage account.last_usage;
      }
