-- ===== src/Tests/Past.antt =====
-- The usage history: a file name, a month that is too large for its file, and readings of a tracker.
use ai_usage_tracker.Prelude.{
  ℕ, zero, suc, ◌<◌, ◌≤◌, ◌-◌, Bool, ◌≡◌, false, none, some, List, [], ◌∷◌, ltb, if◌then◌else◌,
  Text, codes, Result, ok, arith,
}
use ai_usage_tracker.Prelude.Maps.{lookup}
use ai_usage_tracker.History.{
  MonthKey, file_name, from_file_name, Reading, Month, reading_count, indexed, drop_oldest,
  fit_month_within_cap, record_readings,
}
use ai_usage_tracker.History.Names.{from_file_name-file_name}
use ai_usage_tracker.History.Shortening.{IsFit, fit_month_within_cap-IsFit}
use ai_usage_tracker.History.Oldest.{tally, is_before, is_from, drop_oldest_lem}
use ai_usage_tracker.History.Readings.{IsOrdered, record_readings-IsOrdered}

abbrev may : MonthKey
may = record { year = 2026; month = 5 }

from_file_name-file_name_example : from_file_name (file_name may) ≡ some may
from_file_name-file_name_example =
    from_file_name-file_name may (omega arith) (omega arith) (omega arith)

abbrev zeros : ℕ → List ℕ
zeros zero = []
zeros (suc n) = 0 ∷ zeros n

unfoldable large : List ℕ
large = zeros 20_000_000

-- Two readings or more are too large for a file.
encode_sample : List (Text × List Reading) → Result Text (List ℕ)
encode_sample m = if ltb 1 (reading_count m) then ok large else ok []

abbrev at : ℕ → ℕ → Reading
at t u = record { t = t; u = u; r = none }

abbrev three_readings : List (Text × List Reading)
three_readings = (codes "a|w", at 100 5 ∷ at 4000 9 ∷ []) ∷ (codes "b|w", at 200 1 ∷ []) ∷ []

three_readings-count : reading_count three_readings < 4
unfolding reading_count
three_readings-count = omega arith

fit_month_within_cap-IsFit_example :
    IsFit encode_sample three_readings (fit_month_within_cap encode_sample 4 three_readings)
fit_month_within_cap-IsFit_example =
    fit_month_within_cap-IsFit encode_sample 4 three_readings three_readings-count

abbrev empty_month : Month
empty_month = record { trackers = []; dirty = false }

empty_month-IsOrdered : IsOrdered empty_month
unfolding IsOrdered lookup
empty_month-IsOrdered key = tt

abbrev found : List (Text × Reading)
found = (codes "a|w", at 100 5) ∷ (codes "a|w", at 150 5) ∷ (codes "a|w", at 160 9) ∷ []

record_readings-IsOrdered_example : IsOrdered (record_readings [] found empty_month)
record_readings-IsOrdered_example =
    record_readings-IsOrdered [] found empty_month empty_month-IsOrdered

drop_oldest_lem_example :
    (reading_count (drop_oldest 1 three_readings) ≡ reading_count three_readings - 1)
    × ((p : Text × Reading → Bool)
        → tally p (indexed (drop_oldest 1 three_readings)) ≤ tally p (indexed three_readings))
    × ((t : ℕ)
        → 0 < tally (is_before t) (indexed (drop_oldest 1 three_readings))
        → tally (is_from t) (indexed (drop_oldest 1 three_readings))
          ≡ tally (is_from t) (indexed three_readings))
drop_oldest_lem_example = drop_oldest_lem 1 three_readings
