-- ===== src/Version.antt =====
-- src-tauri/src/updater/version.rs: which of two versions is newer, and which texts may stand in an
-- update notice.
pub mod Order
pub mod Notice
use ai_usage_tracker.Prelude.{
  ℕ, ◌<◌, Bool, true, false, not, ◌&&◌, ◌||◌, ◌==◌, ltb, leb, if◌then◌else◌, Option, none, some,
  List, [], ◌∷◌, length, keep, all_of, Text, text_eq, text_leb, trim, is_ascii_digit,
  is_ascii_alphanumeric, to_ascii_lowercase, byte_len,
}
use ai_usage_tracker.Prelude.Split.{split_on, split_once, is_nonempty, parse_u64}

unfoldable pub is_v : ℕ → Bool
is_v c = c == b'v' || c == b'V'

-- `trim_start_matches`
unfoldable pub skip : (ℕ → Bool) → Text → Text
skip p [] = []
skip p (c ∷ cs) = if p c then skip p cs else c ∷ cs

-- The text up to the first character that is neither a digit nor a dot, and the rest.
abbrev pub is_numeric : ℕ → Bool
is_numeric c = is_ascii_digit c || c == b'.'

unfoldable pub numeric_part : Text → Text
numeric_part [] = []
numeric_part (c ∷ cs) = if is_numeric c then c ∷ numeric_part cs else []

-- The numbers that parse; an empty or too long part is passed over.
unfoldable pub parse_parts : List Text → List ℕ
parse_parts [] = []
parse_parts (part ∷ parts) = elim (if is_nonempty part then parse_u64 part else none) [
  | none ↦ parse_parts parts
  | some n ↦ n ∷ parse_parts parts
]

abbrev pub some_nonempty : Text → Option Text
some_nonempty [] = none
some_nonempty (c ∷ cs) = some (c ∷ cs)

unfoldable pub split_version : Text → List ℕ × Option Text
unfolding is_v skip numeric_part parse_parts split_on parse_u64 trim
split_version v =
    let v = skip is_v (trim v) in
    (
      parse_parts (split_on (λ c. c == b'.') (numeric_part v)),
      some_nonempty
          (to_ascii_lowercase (skip (λ c. not (is_ascii_alphanumeric c)) (skip is_numeric v))),
    )

unfoldable pub is_separator : ℕ → Bool
is_separator c = c == b'.' || c == b'-' || c == b'_'

unfoldable pub tokens : Text → List Text
unfolding is_separator split_on
tokens s = keep is_nonempty (split_on is_separator s)

-- `cn > un`, `c > u` and the mixed cases, for two tokens that differ.
abbrev pub token_newer : Option ℕ → Option ℕ → Text → Text → Bool
token_newer (some cn) (some un) c u = ltb un cn
token_newer (some cn) none c u = false
token_newer none (some un) c u = true
token_newer none none c u = not (text_leb c u)

-- The loop over the common length, and the comparison of the lengths after it.
unfoldable pub newer_tokens : List Text → List Text → Bool
newer_tokens [] [] = false
newer_tokens [] (u ∷ us) = false
newer_tokens (c ∷ cs) [] = true
newer_tokens (c ∷ cs) (u ∷ us) =
    let rest = newer_tokens cs us in
    if text_eq c u then rest else token_newer (parse_u64 c) (parse_u64 u) c u

unfoldable pub compare_prerelease : Text → Text → Bool
unfolding tokens newer_tokens
compare_prerelease cand curr = newer_tokens (tokens cand) (tokens curr)

-- The loop over the numbers, a missing one read as 0: the answer at the first difference.
unfoldable pub newer_parts : List ℕ → List ℕ → Option Bool
newer_parts [] [] = none
newer_parts [] (b ∷ bs) = let rest = newer_parts [] bs in if 0 == b then rest else some (ltb b 0)
newer_parts (a ∷ as') [] = let rest = newer_parts as' [] in if a == 0 then rest else some (ltb 0 a)
newer_parts (a ∷ as') (b ∷ bs) =
    let rest = newer_parts as' bs in if a == b then rest else some (ltb b a)

-- A release comes after its prereleases.
unfoldable pub newer_pre : Option Text → Option Text → Bool
unfolding compare_prerelease
newer_pre none (some curr) = true
newer_pre (some cand) none = false
newer_pre none none = false
newer_pre (some cand) (some curr) = compare_prerelease cand curr

-- `is_newer_version` of two versions that are split.
unfoldable pub newer_split : List ℕ × Option Text → List ℕ × Option Text → Bool
unfolding newer_parts newer_pre
newer_split (cand_parts, cand_pre) (curr_parts, curr_pre) =
    elim (newer_parts cand_parts curr_parts) [
      | some answer ↦ answer
      | none ↦ newer_pre cand_pre curr_pre
    ]

unfoldable pub is_newer_version : Text → Text → Bool
unfolding newer_split split_version
is_newer_version candidate current = newer_split (split_version candidate) (split_version current)

-- `strip_prefix(['v', 'V'])`, or the text itself.
abbrev pub strip_v : Text → Text
strip_v [] = []
strip_v (c ∷ cs) = if is_v c then cs else c ∷ cs

abbrev pub numbers_and_tag : Text → Text × Option Text
numbers_and_tag core = elim (split_once b'-' core) [
  | none ↦ (core, none)
  | some (numbers, tag) ↦ (numbers, some tag)
]

unfoldable pub is_number_part : Text → Bool
is_number_part part = is_nonempty part && all_of is_ascii_digit part

unfoldable pub is_tag : Option Text → Bool
is_tag none = true
is_tag (some tag) = is_nonempty tag && all_of (λ c. is_ascii_alphanumeric c || c == b'.') tag

-- The tests on bytes read here on scalar values: both refuse all that is not ASCII.
unfoldable pub is_update_notice_version : Text → Bool
unfolding is_v is_number_part is_tag split_on split_once
is_update_notice_version value =
    let (numbers, tag) = numbers_and_tag (strip_v value) in
    leb (byte_len value) 32
    && length (split_on (λ c. c == b'.') numbers) == 3
    && all_of is_number_part (split_on (λ c. c == b'.') numbers)
    && is_tag tag
