-- ===== src/Tests/Versions.antt =====
-- Versions, with the runs of the repository's own tests.
use ai_usage_tracker.Prelude.{
  ◌≡◌, ◌≤◌, refl, true, codes, text_eq, text_leb, trim, is_whitespace, byte_len, is_ascii_digit,
  is_ascii_alphanumeric, to_ascii_lower, all_of,
}
use ai_usage_tracker.Prelude.Split.{parse_u64}
use ai_usage_tracker.Version.{is_newer_version, is_update_notice_version}
use ai_usage_tracker.Version.Notice.{is_notice_char, is_update_notice_version_safe}

beta_before_release : is_newer_version (codes "0.4.2") (codes "v0.4.2-beta.2") ≡ true
unfolding is_newer_version text_eq text_leb trim is_whitespace is_ascii_digit is_ascii_alphanumeric
    to_ascii_lower parse_u64
beta_before_release = refl

beta_ten_after_two : is_newer_version (codes "0.4.2-beta.10") (codes "0.4.2-beta.2") ≡ true
unfolding is_newer_version text_eq text_leb trim is_whitespace is_ascii_digit is_ascii_alphanumeric
    to_ascii_lower parse_u64
beta_ten_after_two = refl

release_after_ten : is_newer_version (codes "0.4.2") (codes "0.4.2-beta.10") ≡ true
unfolding is_newer_version text_eq text_leb trim is_whitespace is_ascii_digit is_ascii_alphanumeric
    to_ascii_lower parse_u64
release_after_ten = refl

is_update_notice_version_safe_example :
    (byte_len (codes "v0.4.2-beta.1") ≤ 32) × (all_of is_notice_char (codes "v0.4.2-beta.1") ≡ true)
unfolding is_update_notice_version byte_len is_ascii_digit is_ascii_alphanumeric
is_update_notice_version_safe_example = is_update_notice_version_safe (codes "v0.4.2-beta.1") refl
