-- ===== src/Version/Notice.antt =====
-- What the text of an update notice is made of. It comes from outside the app.
use ai_usage_tracker.Prelude.{
  ℕ, ◌≤◌, ◌≡◌, refl, ◌==◌, inl, inr, Bool, true, ◌||◌, some, List, [], ◌∷◌, ◌++◌, arith, Bool-cases,
  Option-cases, List-cases, all_of, Text, byte_len, is_ascii_digit, is_ascii_alphanumeric,
}
use ai_usage_tracker.Prelude.Split.{split_on, split_once}
use ai_usage_tracker.Version.{
  is_v, numbers_and_tag, is_number_part, is_tag, is_update_notice_version,
}

-- Letters, digits, dots and dashes of ASCII.
abbrev pub is_notice_char : ℕ → Bool
is_notice_char c = is_ascii_alphanumeric c || c == b'.' || c == b'-'

digit_alphanumeric : (c : ℕ) → is_ascii_digit c ≡ true → is_ascii_alphanumeric c ≡ true
unfolding is_ascii_digit is_ascii_alphanumeric
digit_alphanumeric c h = ground arith

v_alphanumeric : (c : ℕ) → is_v c ≡ true → is_ascii_alphanumeric c ≡ true
unfolding is_v is_ascii_alphanumeric
v_alphanumeric c h = ground arith

digits_notice : (s : Text) → all_of is_ascii_digit s ≡ true → all_of is_notice_char s ≡ true
digits_notice [] h = refl
digits_notice (c ∷ cs) h = ground (arith, digit_alphanumeric c, digits_notice cs)

-- If each piece is of digits, the text is of digits and separators.
split_notice :
    (s : Text)
    → all_of (all_of is_ascii_digit) (split_on (λ c. c == b'.') s) ≡ true
    → all_of is_notice_char s ≡ true
unfolding split_on
split_notice [] h = refl
split_notice (c ∷ cs) h = elim (Bool-cases (c == b'.')) [
  | inl dot ↦ ground (arith, dot, split_notice cs)
  | inr other ↦ elim (List-cases (split_on (λ c. c == b'.') cs)) [
    | inl e ↦ ground (arith, other, e, digit_alphanumeric c, split_notice cs)
    | inr (p, ps, e) ↦ ground (arith, other, e, digit_alphanumeric c, split_notice cs)
  ]
]

numbers_notice :
    (pieces : List Text)
    → all_of is_number_part pieces ≡ true
    → all_of (all_of is_ascii_digit) pieces ≡ true
unfolding is_number_part
numbers_notice [] h = refl
numbers_notice (p ∷ ps) h = ground (arith, numbers_notice ps)

split_once_join : (c : ℕ) (s a b : Text) → split_once c s ≡ some (a, b) → s ≡ a ++ c ∷ b
unfolding split_once
split_once_join c [] a b h = cc
split_once_join c (x ∷ xs) a b h = elim (Bool-cases (x == c)) [
  | inl hit ↦ ground (arith, hit)
  | inr miss ↦ elim (Option-cases (split_once c xs)) [
    | inl e ↦ absurd (ground (arith, miss, e))
    | inr ((d, r), e) ↦ ground (arith, miss, e, split_once_join c xs d r e)
  ]
]

all_of-append :
    (p : ℕ → Bool) (xs ys : Text)
    → all_of p xs ≡ true
    → all_of p ys ≡ true
    → all_of p (xs ++ ys) ≡ true
all_of-append p [] ys h k = k
all_of-append p (x ∷ xs) ys h k = ground (arith, all_of-append p xs ys)

tag_chars :
    (s : Text)
    → all_of (λ c. is_ascii_alphanumeric c || c == b'.') s ≡ true
    → all_of is_notice_char s ≡ true
tag_chars [] h = refl
tag_chars (c ∷ cs) h = ground (arith, tag_chars cs)

tag_notice : (tag : Text) → is_tag (some tag) ≡ true → all_of is_notice_char tag ≡ true
unfolding is_tag
tag_notice tag h = tag_chars tag (ground arith)

numbers_text :
    (s : Text)
    → all_of is_number_part (split_on (λ c. c == b'.') s) ≡ true
    → all_of is_notice_char s ≡ true
numbers_text s h = split_notice s (numbers_notice (split_on (λ c. c == b'.') s) h)

core_notice :
    (core : Text)
    → all_of is_number_part (split_on (λ c. c == b'.') (numbers_and_tag core).0) ≡ true
    → is_tag (numbers_and_tag core).1 ≡ true
    → all_of is_notice_char core ≡ true
core_notice core h k = elim (Option-cases (split_once b'-' core)) [
  | inl e ↦ numbers_text core (ground (arith, e))
  | inr ((a, b), e) ↦
      let tag : all_of is_notice_char b ≡ true = tag_notice b (ground (arith, e)) in
      rw (split_once_join b'-' core a b e) (
        all_of-append is_notice_char a (b'-' ∷ b) (numbers_text a (ground (arith, e)))
          (ground (arith, tag)))
]

-- A text that is taken for an update notice is at most 32 bytes long and has no character but
-- letters, digits, dots and dashes.
pub is_update_notice_version_safe :
    (value : Text)
    → is_update_notice_version value ≡ true
    → (byte_len value ≤ 32) × (all_of is_notice_char value ≡ true)
unfolding is_update_notice_version
is_update_notice_version_safe [] h = absurd (ground arith)
is_update_notice_version_safe (c ∷ cs) h = (
  ground arith,
  elim (Bool-cases (is_v c)) [
    | inl v ↦ ground (arith, v, v_alphanumeric c, core_notice cs)
    | inr n ↦ ground (arith, n, core_notice (c ∷ cs))
  ],
)
