-- ===== src/History/Names.antt =====
-- src-tauri/src/history/store.rs: the file of a month is found again by its name.
use ai_usage_tracker.Prelude.{
  ℕ, ◌+◌, ◌*◌, ◌/◌, ◌%◌, ◌≤◌, ◌<◌, ◌≡◌, true, some, [], ◌∷◌, Text, text_eq, is_ascii_digit,
  is_digit, byte_len, utf8_width, arith,
}
use ai_usage_tracker.Prelude.Split.{split_once, parse_u64, parse_digits, digits_value}
use ai_usage_tracker.History.{
  MonthKey, four_digits, two_digits, file_name, strip_suffix, is_digits, from_file_name,
}

module _ (a b c d : ℕ) (ha : a < 10) (hb : b < 10) (hc : c < 10) (hd : d < 10) where
  four-IsDigits : is_digits ((48 + a) ∷ (48 + b) ∷ (48 + c) ∷ (48 + d) ∷ []) 4 ≡ true
  unfolding is_digits is_ascii_digit is_digit byte_len utf8_width
  four-IsDigits = ground (arith, ha, hb, hc, hd)

  four-value :
      parse_u64 ((48 + a) ∷ (48 + b) ∷ (48 + c) ∷ (48 + d) ∷ [])
      ≡ some (a * 1000 + b * 100 + c * 10 + d)
  unfolding parse_u64 parse_digits digits_value is_ascii_digit is_digit
  four-value = ground (arith, ha, hb, hc, hd)

  split-four :
      (rest : Text)
      → split_once 45 ((48 + a) ∷ (48 + b) ∷ (48 + c) ∷ (48 + d) ∷ 45 ∷ rest)
        ≡ some ((48 + a) ∷ (48 + b) ∷ (48 + c) ∷ (48 + d) ∷ [], rest)
  unfolding split_once
  split-four rest = ground (arith, ha, hb, hc, hd)

module _ (a b : ℕ) (ha : a < 10) (hb : b < 10) where
  two-IsDigits : is_digits ((48 + a) ∷ (48 + b) ∷ []) 2 ≡ true
  unfolding is_digits is_ascii_digit is_digit byte_len utf8_width
  two-IsDigits = ground (arith, ha, hb)

  two-value : parse_u64 ((48 + a) ∷ (48 + b) ∷ []) ≡ some (a * 10 + b)
  unfolding parse_u64 parse_digits digits_value is_ascii_digit is_digit
  two-value = ground (arith, ha, hb)

number_of_digits :
    (n : ℕ) → n < 10_000 → n / 1000 % 10 * 1000 + n / 100 % 10 * 100 + n / 10 % 10 * 10 + n % 10 ≡ n
number_of_digits n h = omega arith

number_of_two : (n : ℕ) → n < 100 → n / 10 % 10 * 10 + n % 10 ≡ n
number_of_two n h = omega arith

-- The name of the file of a month of a year before 10,000 is read back as that month.
pub from_file_name-file_name :
    (key : MonthKey)
    → key.year < 10_000
    → 1 ≤ key.month
    → key.month ≤ 12
    → from_file_name (file_name key) ≡ some key
unfolding from_file_name file_name strip_suffix four_digits two_digits text_eq
from_file_name-file_name key y low high =
    rw
      (
        split-four (key.year / 1000 % 10) (key.year / 100 % 10) (key.year / 10 % 10) (key.year % 10)
            (omega arith) (omega arith) (omega arith) (omega arith) _,
        four-IsDigits (key.year / 1000 % 10) (key.year / 100 % 10) (key.year / 10 % 10)
            (key.year % 10) (omega arith) (omega arith) (omega arith) (omega arith),
        four-value (key.year / 1000 % 10) (key.year / 100 % 10) (key.year / 10 % 10) (key.year % 10)
            (omega arith) (omega arith) (omega arith) (omega arith),
        two-IsDigits (key.month / 10 % 10) (key.month % 10) (omega arith) (omega arith),
        two-value (key.month / 10 % 10) (key.month % 10) (omega arith) (omega arith),
        number_of_digits key.year y,
        number_of_two key.month (omega arith),
      )
      (ground (arith, low, high))
