-- ===== src/History/Shortening.antt =====
-- src-tauri/src/history/store.rs: the loop that shortens a month comes to an end.
use ai_usage_tracker.Prelude.{
  ℕ, zero, suc, ◌+◌, ◌-◌, ◌*◌, ◌/◌, min, max, ◌<◌, ◌≤◌, ◌≡◌, ◌⊎◌, inl, inr, refl, ap, true, ◌||◌,
  Option, none, some, List, [], ◌∷◌, ◌++◌, leb, ◌==◌, length, drop, Text, Result, ok, err, arith,
  Bool-cases, Result-cases, length-append, length-drop,
}
use native.Mathlib.Nat.{div-mul-le_self, mul-le-mul_right}
use ai_usage_tracker.Prelude.Maps.{lookup, insert}
use ai_usage_tracker.History.{
  Reading, readings_of, push_reading, reading_count, with_key, indexed, insert_by_age, sort_by_age,
  regroup, drop_oldest, drop_count, fit_month_within_cap,
}

length-with_key : (key : Text) (list : List Reading) → length (with_key key list) ≡ length list
unfolding with_key
length-with_key key [] = refl
length-with_key key (x ∷ xs) = ap suc (length-with_key key xs)

length-indexed : (m : List (Text × List Reading)) → length (indexed m) ≡ reading_count m
unfolding indexed reading_count
length-indexed [] = refl
length-indexed ((key, list) ∷ rest) = omega (
  arith,
  length-append (with_key key list) (indexed rest),
  length-with_key key list,
  length-indexed rest,
)

length-insert_by_age :
    (a : Text × Reading) (bs : List (Text × Reading))
    → length (insert_by_age a bs) ≡ suc (length bs)
unfolding insert_by_age
length-insert_by_age a [] = refl
length-insert_by_age a (b ∷ bs) = ground (arith, length-insert_by_age a bs)

length-sort_by_age : (xs : List (Text × Reading)) → length (sort_by_age xs) ≡ length xs
unfolding sort_by_age
length-sort_by_age [] = refl
length-sort_by_age (a ∷ xs) =
    omega (arith, length-insert_by_age a (sort_by_age xs), length-sort_by_age xs)

reading_count-insert :
    (key : Text) (list : List Reading) (m : List (Text × List Reading))
    → reading_count (insert key list m) + length (readings_of key m) ≡ reading_count m + length list
unfolding reading_count insert lookup
reading_count-insert key list [] = omega arith
reading_count-insert key list ((k, v) ∷ m) = ground (arith, reading_count-insert key list m)

reading_count-push_reading :
    (key : Text) (x : Reading) (m : List (Text × List Reading))
    → reading_count (push_reading key x m) ≡ suc (reading_count m)
unfolding push_reading
reading_count-push_reading key x m = omega (
  arith,
  reading_count-insert key (readings_of key m ++ x ∷ []) m,
  length-append (readings_of key m) (x ∷ []),
)

reading_count-regroup :
    (xs : List (Text × Reading)) (m : List (Text × List Reading))
    → reading_count (regroup xs m) ≡ length xs + reading_count m
unfolding regroup
reading_count-regroup [] m = omega arith
reading_count-regroup ((key, x) ∷ xs) m =
    omega
      (arith, reading_count-regroup xs (push_reading key x m), reading_count-push_reading key x m)

pub reading_count-drop_oldest :
    (count : ℕ) (m : List (Text × List Reading))
    → reading_count (drop_oldest count m) ≡ reading_count m - count
unfolding drop_oldest reading_count
reading_count-drop_oldest count m = elim (Bool-cases (leb (length (indexed m)) count)) [
  | inl e ↦ rw e (ground (arith, e, length-indexed m))
  | inr e ↦ rw e (
      omega (
        arith,
        reading_count-regroup (drop count (sort_by_age (indexed m))) [],
        length-drop count (sort_by_age (indexed m)),
        length-sort_by_age (indexed m),
        length-indexed m,
      ))
]

drop_count-pos : (size total : ℕ) → 0 < total → 0 < drop_count size total
unfolding drop_count
drop_count-pos size zero h = absurd (omega arith)
drop_count-pos size (suc n) h = omega arith

fits_or_empty :
    (size total : ℕ) → (leb size 16777216 || total == 0) ≡ true → (size ≤ 16_777_216) ⊎ (total ≡ 0)
fits_or_empty size total h = elim (Bool-cases (leb size 16777216)) [
  | inl e ↦ inl (ground (arith, e))
  | inr e ↦ inr (ground (arith, e, h))
]

-- Not more than one reading, or than as many of the average size as the file is too large by.
abbrev pub IsNeeded : (size total count : ℕ) → Type 0
IsNeeded size total count = (count ≡ 1) ⊎ (count * max (size / total) 1 ≤ size - 16_777_216)

times_fewer :
    (count over average excess : ℕ)
    → count ≤ over
    → over * average ≤ excess
    → count * average ≤ excess
times_fewer count over average excess h k = omega (arith, mul-le-mul_right average h, k)

drop_count-IsNeeded : (size total : ℕ) → 0 < total → IsNeeded size total (drop_count size total)
unfolding drop_count
drop_count-IsNeeded size zero h = absurd (omega arith)
drop_count-IsNeeded size (suc n) h =
    let average = max (size / suc n) 1 in
    let over = (size - 16_777_216) / average in
    elim (Bool-cases (leb over 1)) [
      | inl few ↦ inl (ground (arith, few))
      | inr many ↦
          let fewer : min (max over 1) (suc n) ≤ over = ground (arith, many) in
          inr (times_fewer _ over average _ fewer (div-mul-le_self (size - 16_777_216) average))
    ]

module _ (encode : List (Text × List Reading) → Result Text (List ℕ)) where
  -- The second month comes from the first by dropping its oldest readings, in turns. Each turn finds
  -- the month too large for a file and drops at least one reading and no more than it needs to.
  pub data Shortened : List (Text × List Reading) → List (Text × List Reading) → Type 0 where
    same : {m : List (Text × List Reading)} → Shortened m m
    shorter :
        {m m' : List (Text × List Reading)} (payload : List ℕ) (count : ℕ)
        → encode m ≡ ok payload
        → 16_777_216 < length payload
        → 0 < count
        → IsNeeded (length payload) (reading_count m) count
        → Shortened (drop_oldest count m) m'
        → Shortened m m'

  -- The outcome of the loop.
  abbrev pub IsFit :
      List (Text × List Reading)
      → Option (Result Text (List ℕ × List (Text × List Reading)))
      → Type 0
  IsFit m none = ⊥
  IsFit m (some (err e)) =
      (left : List (Text × List Reading)) × Shortened m left × (encode left ≡ err e)
  IsFit m (some (ok (payload, left))) =
      Shortened m left
      × (encode left ≡ ok payload)
      × ((length payload ≤ 16_777_216) ⊎ (reading_count left ≡ 0))

  IsFit-shorter :
      (m : List (Text × List Reading)) (payload : List ℕ) (count : ℕ)
      (r : Option (Result Text (List ℕ × List (Text × List Reading))))
      → encode m ≡ ok payload
      → 16_777_216 < length payload
      → 0 < count
      → IsNeeded (length payload) (reading_count m) count
      → IsFit (drop_oldest count m) r
      → IsFit m r
  IsFit-shorter m payload count none e big pos need fit = fit
  IsFit-shorter m payload count (some (err x)) e big pos need (left, path, fails) =
      (left, shorter payload count e big pos need path, fails)
  IsFit-shorter m payload count (some (ok (p, left))) e big pos need (path, encoded, fits) =
      (shorter payload count e big pos need path, encoded, fits)

  -- The loop that shortens a month ends within one turn more than the month has readings. It works in
  -- turns of drop_oldest, each on a month that the serializer makes too large for a file, of at least
  -- one reading and of no more than one or than the excess over the average size. It ends with the
  -- error of the serializer on the month that is left, or with what the serializer makes of it, which
  -- fits a file unless the month has no readings.
  pub fit_month_within_cap-IsFit :
      (fuel : ℕ) (m : List (Text × List Reading))
      → reading_count m < fuel
      → IsFit m (fit_month_within_cap encode fuel m)
  unfolding fit_month_within_cap
  fit_month_within_cap-IsFit zero m h = absurd (omega arith)
  fit_month_within_cap-IsFit (suc fuel) m h = elim (Result-cases (encode m)) [
    | inr (x, e) ↦ rw (e, fit_month_within_cap) (m, same, e)
    | inl (payload, e) ↦ elim (Bool-cases (leb (length payload) 16777216 || reading_count m == 0)) [
      | inl t ↦
          rw (e, t, fit_month_within_cap)
            (same, e, fits_or_empty (length payload) (reading_count m) t)
      | inr t ↦
          let count = drop_count (length payload) (reading_count m) in
          let fewer = reading_count-drop_oldest count m in
          let pos : 0 < reading_count m = ground (arith, t) in
          let big : 16_777_216 < length payload = ground (arith, t) in
          let some_ = drop_count-pos (length payload) (reading_count m) pos in
          rw (e, t, fit_month_within_cap)
            (IsFit-shorter m payload count _ e big some_
              (drop_count-IsNeeded (length payload) (reading_count m) pos)
              (fit_month_within_cap-IsFit fuel (drop_oldest count m)
                (omega (arith, fewer, some_, pos, h))))
    ]
  ]
