-- ===== src/History/Oldest.antt =====
-- src-tauri/src/history/store.rs: the readings that go when a month is shortened are the oldest.
use ai_usage_tracker.Prelude.{
  ℕ, zero, suc, ◌+◌, ◌-◌, ◌<◌, ◌≤◌, ◌≡◌, ◌⊎◌, refl, ap, eq_of_text_eq, text_eq, inl, inr, Bool,
  true, false, List, [], ◌∷◌, ◌++◌, leb, ltb, if◌then◌else◌, length, drop, Text, All, arith,
  Bool-cases,
}
use ai_usage_tracker.Prelude.Maps.{lookup, insert}
use ai_usage_tracker.History.{
  Reading, readings_of, push_reading, reading_count, with_key, indexed, is_older, insert_by_age,
  sort_by_age, regroup, drop_oldest,
}
use ai_usage_tracker.History.Shortening.{reading_count-drop_oldest}

-- The number of readings with a property.
abbrev pub tally : (Text × Reading → Bool) → List (Text × Reading) → ℕ
tally p [] = 0
tally p (x ∷ xs) = (if p x then 1 else 0) + tally p xs

abbrev pub is_before : ℕ → Text × Reading → Bool
is_before t (key, x) = ltb x.t t

abbrev pub is_from : ℕ → Text × Reading → Bool
is_from t (key, x) = leb t x.t

module _ (p : Text × Reading → Bool) where
  tally-append : (xs ys : List (Text × Reading)) → tally p (xs ++ ys) ≡ tally p xs + tally p ys
  tally-append [] ys = omega arith
  tally-append (x ∷ xs) ys = omega (arith, tally-append xs ys)

  tally-insert_by_age :
      (a : Text × Reading) (bs : List (Text × Reading))
      → tally p (insert_by_age a bs) ≡ (if p a then 1 else 0) + tally p bs
  unfolding insert_by_age
  tally-insert_by_age a [] = refl
  tally-insert_by_age a (b ∷ bs) = elim (Bool-cases (is_older a b)) [
    | inl e ↦ rw e refl
    | inr e ↦ rw e (omega (arith, tally-insert_by_age a bs))
  ]

  tally-sort_by_age : (xs : List (Text × Reading)) → tally p (sort_by_age xs) ≡ tally p xs
  unfolding sort_by_age
  tally-sort_by_age [] = refl
  tally-sort_by_age (a ∷ xs) =
      omega (arith, tally-insert_by_age a (sort_by_age xs), tally-sort_by_age xs)

  tally-drop-le : (n : ℕ) (xs : List (Text × Reading)) → tally p (drop n xs) ≤ tally p xs
  tally-drop-le zero xs = omega arith
  tally-drop-le (suc n) [] = omega arith
  tally-drop-le (suc n) (x ∷ xs) = omega (arith, tally-drop-le n xs)

  tally-with_key_append :
      (key : Text) (xs ys : List Reading)
      → tally p (with_key key (xs ++ ys)) ≡ tally p (with_key key xs) + tally p (with_key key ys)
  unfolding with_key
  tally-with_key_append key [] ys = omega arith
  tally-with_key_append key (x ∷ xs) ys = omega (arith, tally-with_key_append key xs ys)

  tally-insert :
      (key : Text) (list : List Reading) (m : List (Text × List Reading))
      → tally p (indexed (insert key list m)) + tally p (with_key key (readings_of key m))
        ≡ tally p (indexed m) + tally p (with_key key list)
  unfolding indexed insert lookup with_key
  tally-insert key list [] = omega (arith, tally-append (with_key key list) [])
  tally-insert key list ((k, v) ∷ m) = elim (Bool-cases (text_eq k key)) [
    | inl e ↦
        let same : tally p (with_key k v) ≡ tally p (with_key key v) =
          ap (λ k'. tally p (with_key k' v)) (eq_of_text_eq k key e) in
        (ground (
          arith,
          e,
          same,
          tally-append (with_key key list) (indexed m),
          tally-append (with_key k v) (indexed m),
        ))
    | inr e ↦
        (ground (
          arith,
          e,
          tally-insert key list m,
          tally-append (with_key k v) (indexed m),
          tally-append (with_key k v) (indexed (insert key list m)),
        ))
  ]

  tally-push_reading :
      (key : Text) (x : Reading) (m : List (Text × List Reading))
      → tally p (indexed (push_reading key x m))
        ≡ (if p (key, x) then 1 else 0) + tally p (indexed m)
  unfolding push_reading with_key
  tally-push_reading key x m = omega (
    arith,
    tally-insert key (readings_of key m ++ x ∷ []) m,
    tally-with_key_append key (readings_of key m) (x ∷ []),
  )

  tally-regroup :
      (xs : List (Text × Reading)) (m : List (Text × List Reading))
      → tally p (indexed (regroup xs m)) ≡ tally p xs + tally p (indexed m)
  unfolding regroup indexed
  tally-regroup [] m = omega arith
  tally-regroup ((key, x) ∷ xs) m =
      omega (arith, tally-regroup xs (push_reading key x m), tally-push_reading key x m)

-- The readings are in the order of their times.
abbrev IsSorted : List (Text × Reading) → Type 0
IsSorted [] = Unit
IsSorted (a ∷ as') = All (λ b. a.1.t ≤ b.1.t) as' × IsSorted as'

insert_by_age-All :
    (n : ℕ) (a : Text × Reading) (bs : List (Text × Reading))
    → n ≤ a.1.t
    → All (λ b. n ≤ b.1.t) bs
    → All (λ b. n ≤ b.1.t) (insert_by_age a bs)
unfolding insert_by_age
insert_by_age-All n a [] h k = (h, tt)
insert_by_age-All n a (b ∷ bs) h k = elim (Bool-cases (is_older a b)) [
  | inl e ↦ rw e (h, k)
  | inr e ↦ rw e (k.0, insert_by_age-All n a bs h k.1)
]

later_too :
    (n m : ℕ) (bs : List (Text × Reading))
    → n ≤ m
    → All (λ b. m ≤ b.1.t) bs
    → All (λ b. n ≤ b.1.t) bs
later_too n m [] h k = tt
later_too n m (b ∷ bs) h k = (omega (arith, h, k.0), later_too n m bs h k.1)

goes_first : (a b : Text × Reading) → is_older a b ≡ true → a.1.t ≤ b.1.t
unfolding is_older
goes_first (k, x) (l, y) h = ground (arith, h)

goes_last : (a b : Text × Reading) → is_older a b ≡ false → b.1.t ≤ a.1.t
unfolding is_older
goes_last (k, x) (l, y) h = ground (arith, h)

insert_by_age-IsSorted :
    (a : Text × Reading) (bs : List (Text × Reading)) → IsSorted bs → IsSorted (insert_by_age a bs)
unfolding insert_by_age
insert_by_age-IsSorted a [] h = (tt, tt)
insert_by_age-IsSorted a (b ∷ bs) h = elim (Bool-cases (is_older a b)) [
  | inl e ↦ let first = goes_first a b e in rw e ((first, later_too a.1.t b.1.t bs first h.0), h)
  | inr e ↦
      rw e (insert_by_age-All b.1.t a bs (goes_last a b e) h.0, insert_by_age-IsSorted a bs h.1)
]

sort_by_age-IsSorted : (xs : List (Text × Reading)) → IsSorted (sort_by_age xs)
unfolding sort_by_age
sort_by_age-IsSorted [] = tt
sort_by_age-IsSorted (a ∷ xs) = insert_by_age-IsSorted a (sort_by_age xs) (sort_by_age-IsSorted xs)

no_later :
    (n t : ℕ) (bs : List (Text × Reading))
    → All (λ b. n ≤ b.1.t) bs
    → 0 < tally (is_before t) bs
    → n < t
no_later n t [] h k = absurd (omega (arith, k))
no_later n t ((key, x) ∷ bs) h k = elim (Bool-cases (ltb x.t t)) [
  | inl e ↦ ground (arith, e, h.0)
  | inr e ↦ no_later n t bs h.1 (ground (arith, e, k))
]

drop-keeps :
    (n t : ℕ) (xs : List (Text × Reading))
    → IsSorted xs
    → 0 < tally (is_before t) (drop n xs)
    → tally (is_from t) (drop n xs) ≡ tally (is_from t) xs
drop-keeps zero t xs h k = refl
drop-keeps (suc n) t [] h k = refl
drop-keeps (suc n) t ((key, x) ∷ xs) h k =
    let early = no_later x.t t xs h.0 (omega (arith, k, tally-drop-le (is_before t) n xs)) in
    ground (arith, early, drop-keeps n t xs h.1 k)

abbrev sorted : List (Text × List Reading) → List (Text × Reading)
sorted m = sort_by_age (indexed m)

-- What is left is nothing, or all but the first of the sorted readings.
tally-drop_oldest :
    (count : ℕ) (m : List (Text × List Reading))
    → ((p : Text × Reading → Bool) → tally p (indexed (drop_oldest count m)) ≡ 0)
      ⊎ ((p : Text × Reading → Bool)
          → tally p (indexed (drop_oldest count m)) ≡ tally p (drop count (sorted m)))
unfolding drop_oldest indexed
tally-drop_oldest count m = elim (Bool-cases (leb (length (indexed m)) count)) [
  | inl e ↦ inl (λ p. rw e refl)
  | inr e ↦ inr (λ p. rw e (omega (arith, tally-regroup p (drop count (sorted m)) [])))
]

-- drop_oldest leaves as many readings fewer as it is told to drop, or none, and adds none; where it
-- leaves a reading from before a time, it leaves all that are from that time on.
pub drop_oldest_lem :
    (count : ℕ) (m : List (Text × List Reading))
    → (reading_count (drop_oldest count m) ≡ reading_count m - count)
      × ((p : Text × Reading → Bool)
          → tally p (indexed (drop_oldest count m)) ≤ tally p (indexed m))
      × ((t : ℕ)
          → 0 < tally (is_before t) (indexed (drop_oldest count m))
          → tally (is_from t) (indexed (drop_oldest count m)) ≡ tally (is_from t) (indexed m))
drop_oldest_lem count m = (
  reading_count-drop_oldest count m,
  (λ p. elim (tally-drop_oldest count m) [
    | inl e ↦ omega (arith, e p)
    | inr e ↦ omega (arith, e p, tally-drop-le p count (sorted m), tally-sort_by_age p (indexed m))
  ]),
  (λ t early. elim (tally-drop_oldest count m) [
    | inl e ↦ absurd (omega (arith, e (is_before t), early))
    | inr e ↦
        let late : 0 < tally (is_before t) (drop count (sorted m)) =
          omega (arith, e (is_before t), early) in
        omega (
          arith,
          e (is_from t),
          drop-keeps count t (sorted m) (sort_by_age-IsSorted (indexed m)) late,
          tally-sort_by_age (is_from t) (indexed m),
        )
  ]),
)
