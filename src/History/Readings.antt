-- ===== src/History/Readings.antt =====
-- src-tauri/src/history/store.rs: the readings that a month collects.
use ai_usage_tracker.Prelude.{
  ◌<◌, ◌≡◌, Bool, true, none, some, List, [], ◌∷◌, ◌++◌, if◌then◌else◌, Text, text_eq, arith,
  Bool-cases, Option-cases, inl, inr,
}
use ai_usage_tracker.Prelude.Maps.{lookup-insert}
use ai_usage_tracker.History.{
  Reading, Month, last_of, readings_of, push_reading, should_write, last_reading, record_readings,
}

-- Each reading is later than the one before it.
abbrev pub IsLater : List Reading → Type 0
IsLater [] = Unit
IsLater (x ∷ []) = Unit
IsLater (x ∷ y ∷ xs) = (x.t < y.t) × IsLater (y ∷ xs)

IsLater-append :
    (xs : List Reading) (x last : Reading)
    → IsLater xs
    → last_of xs ≡ some last
    → last.t < x.t
    → IsLater (xs ++ x ∷ [])
IsLater-append [] x last s e h = cc
IsLater-append (y ∷ []) x last s e h = (ground (arith, e, h), tt)
IsLater-append (y ∷ z ∷ ys) x last s e h = (s.0, IsLater-append (z ∷ ys) x last s.1 e h)

IsLater-first : (xs : List Reading) (x : Reading) → last_of xs ≡ none → IsLater (xs ++ x ∷ [])
IsLater-first [] x h = tt
IsLater-first (y ∷ []) x h = cc
IsLater-first (y ∷ z ∷ ys) x h = absurd (has_last z ys h)
  where
    has_last : (a : Reading) (as' : List Reading) → last_of (a ∷ as') ≡ none → ⊥
    has_last a [] e = cc
    has_last a (b ∷ bs) e = has_last b bs e

unfoldable pub IsOrdered : Month → Type 0
IsOrdered month = (key : Text) → IsLater (readings_of key month.trackers)

written-IsLater :
    (older : List Month) (month : Month) (key : Text) (reading : Reading)
    → IsLater (readings_of key month.trackers)
    → should_write (last_reading key (month ∷ older)) reading ≡ true
    → IsLater (readings_of key month.trackers ++ reading ∷ [])
unfolding should_write last_reading
written-IsLater older month key reading s h =
    elim (Option-cases (last_of (readings_of key month.trackers))) [
      | inl e ↦ IsLater-first _ reading e
      | inr (last, e) ↦ IsLater-append _ reading last s e (ground (arith, h, e))
    ]

readings_of-push_reading :
    (key other : Text) (x : Reading) (m : List (Text × List Reading))
    → readings_of other (push_reading key x m)
      ≡ (if text_eq key other then readings_of key m ++ x ∷ [] else readings_of other m)
unfolding push_reading
readings_of-push_reading key other x m =
    ground (arith, lookup-insert key other (readings_of key m ++ x ∷ []) m)

push-IsOrdered :
    (older : List Month) (month : Month) (key : Text) (reading : Reading) (d : Bool)
    → IsOrdered month
    → should_write (last_reading key (month ∷ older)) reading ≡ true
    → IsOrdered (record { trackers = push_reading key reading month.trackers; dirty = d })
unfolding IsOrdered
push-IsOrdered older month key reading d o h other =
    rw (readings_of-push_reading key other reading month.trackers)
      (elim (Bool-cases (text_eq key other)) [
        | inl e ↦ rw e (written-IsLater older month key reading (o key) h)
        | inr e ↦ rw e (o other)
      ])

-- Where the readings of each tracker of a month are in strictly increasing order of time, they
-- still are after any readings are recorded, with any older months.
pub record_readings-IsOrdered :
    (older : List Month) (readings : List (Text × Reading)) (month : Month)
    → IsOrdered month
    → IsOrdered (record_readings older readings month)
unfolding record_readings
record_readings-IsOrdered older [] month o = o
record_readings-IsOrdered older ((key, reading) ∷ rest) month o =
    elim (Bool-cases (should_write (last_reading key (month ∷ older)) reading)) [
      | inl e ↦
          rw (e, record_readings)
            (record_readings-IsOrdered older rest _
              (push-IsOrdered older month key reading true o e))
      | inr e ↦ rw (e, record_readings) (record_readings-IsOrdered older rest month o)
    ]
