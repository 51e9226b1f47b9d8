-- ===== src/Limits.antt =====
-- src-tauri/src/limits.rs, and the account ids of src-tauri/src/store/mod.rs: the bounds on what
-- comes from outside. A test on each byte of an id reads here on each scalar value: a scalar value
-- above 0x7F fails it, and so do the bytes that encode it.
use ai_usage_tracker.Prelude.{
  ℕ, ◌≤◌, Bool, true, false, not, ◌&&◌, ◌||◌, ◌==◌, leb, List, [], ◌∷◌, Text, length, take, all_of,
  byte_len, is_ascii_alphanumeric, arith, length-take,
}

abbrev pub max_label_chars : ℕ
max_label_chars = 80

abbrev pub max_buckets : ℕ
max_buckets = 64

abbrev pub max_bucket_name_chars : ℕ
max_bucket_name_chars = 80

abbrev pub max_email_chars : ℕ
max_email_chars = 254

abbrev pub max_identity_chars : ℕ
max_identity_chars = 256

abbrev pub max_timestamp_chars : ℕ
max_timestamp_chars = 64

abbrev pub max_status_message_chars : ℕ
max_status_message_chars = 500

abbrev pub max_usage_windows : ℕ
max_usage_windows = 32

abbrev pub max_window_text_chars : ℕ
max_window_text_chars = 128

-- `pairing::payload::MAX_ACCOUNTS`
abbrev pub max_accounts : ℕ
max_accounts = 64

abbrev pub max_account_id_len : ℕ
max_account_id_len = 64

-- Cuts a text to at most `max` scalar values.
unfoldable pub clamp_chars : ℕ → Text → Text
clamp_chars n value = take n value

pub length-clamp_chars : (n : ℕ) (value : Text) → length (clamp_chars n value) ≤ n
unfolding clamp_chars
length-clamp_chars n value = omega (arith, length-take n value)

abbrev pub is_empty : {A : Type 0} → List A → Bool
is_empty [] = true
is_empty (x ∷ xs) = false

pub is_id_char : ℕ → Bool
is_id_char c = is_ascii_alphanumeric c || c == b'-' || c == b'_'

unfoldable pub is_valid_account_id : Text → Bool
unfolding is_id_char
is_valid_account_id id =
    not (is_empty id) && leb (byte_len id) max_account_id_len && all_of is_id_char id
