-- ===== src/History.antt =====
-- src-tauri/src/history/store.rs and src-tauri/src/history/mod.rs: the months of the usage history,
-- the names of their files, when a reading is stored, and how a month is shortened to the size of a
-- file. Years are those from 1970 to 9999 that the code lets in, and times are seconds since 1970. A
-- percentage is kept as its hundredths, which is how readings are compared. serde_json is a function
-- from the trackers to the bytes, or an error.
pub mod Names
pub mod Shortening
pub mod Oldest
pub mod Readings
use ai_usage_tracker.Prelude.{
  ℕ, zero, suc, ◌+◌, ◌-◌, ◌*◌, ◌/◌, ◌%◌, min, max, Bool, true, false, not, ◌&&◌, ◌||◌, Option, none,
  some, List, [], ◌∷◌, ◌++◌, ltb, leb, ◌==◌, if◌then◌else◌, length, take, drop, all_of, Text, codes,
  text_eq, text_leb, is_ascii_digit, byte_len, Result, ok, err, ◌>>=◌,
}
use ai_usage_tracker.Prelude.Split.{split_once, parse_u64}
use ai_usage_tracker.Prelude.Maps.{lookup, insert}

abbrev pub heartbeat_seconds : ℕ
heartbeat_seconds = 60 * 60

abbrev pub retention_months : ℕ
retention_months = 13

abbrev pub max_file_bytes : ℕ
max_file_bytes = 16_777_216

pub record MonthKey : Type 0 where
  pub year : ℕ
  pub month : ℕ

unfoldable pub index : MonthKey → ℕ
index key = key.year * 12 + key.month - 1

unfoldable pub from_index : ℕ → MonthKey
from_index i = record { year = i / 12; month = i % 12 + 1 }

unfoldable pub minus_months : MonthKey → ℕ → MonthKey
unfolding index from_index
minus_months key months = from_index (index key - months)

unfoldable pub previous : MonthKey → MonthKey
unfolding minus_months
previous key = minus_months key 1

abbrev digit : ℕ → ℕ
digit n = b'0' + n % 10

-- `{:04}` of a year below 10,000, and `{:02}` of a month.
unfoldable pub four_digits : ℕ → Text
four_digits n = digit (n / 1000) ∷ digit (n / 100) ∷ digit (n / 10) ∷ digit n ∷ []

unfoldable pub two_digits : ℕ → Text
two_digits n = digit (n / 10) ∷ digit n ∷ []

unfoldable pub file_name : MonthKey → Text
unfolding four_digits two_digits
file_name key = four_digits key.year ++ b'-' ∷ (two_digits key.month ++ codes ".json")

-- `strip_suffix`
unfoldable pub strip_suffix : Text → Text → Option Text
strip_suffix suffix s =
    let n = length s - length suffix in if text_eq (drop n s) suffix then some (take n s) else none

unfoldable pub is_digits : Text → ℕ → Bool
is_digits text len = byte_len text == len && all_of is_ascii_digit text

abbrev and_then : {A B : Type 0} → Option A → (A → Option B) → Option B
and_then none f = none
and_then (some a) f = f a

unfoldable pub from_file_name : Text → Option MonthKey
unfolding strip_suffix is_digits
from_file_name name = and_then (strip_suffix (codes ".json") name) (λ stem.
    and_then (split_once b'-' stem) (λ parts.
      if not (is_digits parts.0 4) || not (is_digits parts.1 2)
      then none
      else and_then (parse_u64 parts.0) (λ year. and_then (parse_u64 parts.1) (λ month.
        if leb 1 month && leb month 12
        then some (record { year = year; month = month })
        else none))))

-- `u` is in hundredths.
pub record Reading : Type 0 where
  pub t : ℕ
  pub u : ℕ
  pub r : Option ℕ

pub record Month : Type 0 where
  pub trackers : List (Text × List Reading)
  pub dirty : Bool

abbrev pub same_reset : Option ℕ → Option ℕ → Bool
same_reset none none = true
same_reset none (some b) = false
same_reset (some a) none = false
same_reset (some a) (some b) = a == b

abbrev pub abs_diff : ℕ → ℕ → ℕ
abs_diff a b = (a - b) + (b - a)

-- Whether a reading is worth storing after the newest one.
unfoldable pub should_write : Option Reading → Reading → Bool
should_write none reading = true
should_write (some last) reading =
    ltb last.t reading.t
    && (ltb 1 (abs_diff reading.u last.u)
        || not (same_reset reading.r last.r)
        || leb heartbeat_seconds (reading.t - last.t))

abbrev pub last_of : List Reading → Option Reading
last_of [] = none
last_of (x ∷ []) = some x
last_of (x ∷ y ∷ xs) = last_of (y ∷ xs)

abbrev pub readings_of : Text → List (Text × List Reading) → List Reading
readings_of key trackers = elim (lookup key trackers) [ none ↦ [] | some list ↦ list ]

-- `trackers.entry(key).or_default().push(reading)`
unfoldable pub push_reading :
    Text → Reading → List (Text × List Reading) → List (Text × List Reading)
push_reading key reading trackers = insert key (readings_of key trackers ++ reading ∷ []) trackers

-- The newest reading of a tracker among the months in memory, the newest month first.
unfoldable pub last_reading : Text → List Month → Option Reading
last_reading key [] = none
last_reading key (month ∷ older) = elim (last_of (readings_of key month.trackers)) [
  | some reading ↦ some reading
  | none ↦ last_reading key older
]

-- The loop of `Inner::record` over the readings, for the current month with the older ones.
unfoldable pub record_readings : List Month → List (Text × Reading) → Month → Month
unfolding should_write push_reading last_reading
record_readings older [] month = month
record_readings older ((key, reading) ∷ rest) month =
    elim (should_write (last_reading key (month ∷ older)) reading) [
      | true ↦
          record_readings older rest
            (record { trackers = push_reading key reading month.trackers; dirty = true })
      | false ↦ record_readings older rest month
    ]

unfoldable pub reading_count : List (Text × List Reading) → ℕ
reading_count [] = 0
reading_count ((key, list) ∷ rest) = length list + reading_count rest

unfoldable pub with_key : Text → List Reading → List (Text × Reading)
with_key k [] = []
with_key k (x ∷ xs) = (k, x) ∷ with_key k xs

-- The readings with their keys, and the order in which `drop_oldest` puts them.
unfoldable pub indexed : List (Text × List Reading) → List (Text × Reading)
unfolding with_key
indexed [] = []
indexed ((key, list) ∷ rest) = with_key key list ++ indexed rest

unfoldable pub is_older : Text × Reading → Text × Reading → Bool
is_older (k, x) (l, y) = ltb x.t y.t || (x.t == y.t && text_leb k l)

unfoldable pub insert_by_age : Text × Reading → List (Text × Reading) → List (Text × Reading)
insert_by_age a [] = a ∷ []
insert_by_age a (b ∷ bs) = if is_older a b then a ∷ b ∷ bs else b ∷ insert_by_age a bs

unfoldable pub sort_by_age : List (Text × Reading) → List (Text × Reading)
unfolding insert_by_age
sort_by_age [] = []
sort_by_age (a ∷ as') = insert_by_age a (sort_by_age as')

unfoldable pub regroup :
    List (Text × Reading) → List (Text × List Reading) → List (Text × List Reading)
unfolding push_reading
regroup [] trackers = trackers
regroup ((key, reading) ∷ rest) trackers = regroup rest (push_reading key reading trackers)

unfoldable pub drop_oldest : ℕ → List (Text × List Reading) → List (Text × List Reading)
unfolding indexed sort_by_age regroup
drop_oldest count trackers =
    if leb (length (indexed trackers)) count
    then []
    else regroup (drop count (sort_by_age (indexed trackers))) []

-- The number of readings that a turn of the loop drops.
unfoldable pub drop_count : ℕ → ℕ → ℕ
drop_count size total = elim total [
  | zero ↦ 0
  | suc n ↦ min (max ((size - max_file_bytes) / max (size / suc n) 1) 1) (suc n)
]

module _ (encode : List (Text × List Reading) → Result Text (List ℕ)) where
  -- The loop of `fit_month_within_cap`; none is out of fuel.
  unfoldable pub fit_month_within_cap :
      ℕ → List (Text × List Reading) → Option (Result Text (List ℕ × List (Text × List Reading)))
  unfolding reading_count drop_oldest drop_count
  fit_month_within_cap zero trackers = none
  fit_month_within_cap (suc fuel) trackers = elim (encode trackers) [
    | err e ↦ some (err e)
    | ok payload ↦ elim (leb (length payload) max_file_bytes || reading_count trackers == 0) [
      | true ↦ some (ok (payload, trackers))
      | false ↦
          fit_month_within_cap fuel
            (drop_oldest (drop_count (length payload) (reading_count trackers)) trackers)
    ]
  ]
