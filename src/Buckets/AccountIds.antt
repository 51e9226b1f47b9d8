-- ===== src/Buckets/AccountIds.antt =====
-- The account ids of a bucket: what `normalize_account_ids`, the merge of an import and the removal
-- of an account leave in it.
use ai_usage_tracker.Prelude.{
  ◌≤◌, ◌<◌, ◌≡◌, refl, inl, inr, Bool, true, false, not, ◌&&◌, leb, if◌then◌else◌, List, [], ◌∷◌,
  ◌++◌, arith, Bool-cases, length, length-append, all_of, Text, text_eq_sym, contains,
  contains-append, without, without-Distinct, length-without-le, Distinct,
}
use ai_usage_tracker.Limits.{max_accounts, is_valid_account_id}
use ai_usage_tracker.Buckets.{normalize_from, normalize_account_ids, merge_ids}

-- At most 64 ids, none twice, each a plain token.
pub record IdsValid (ids : List Text) : Type 0 where
  pub few : length ids ≤ max_accounts
  pub lone : Distinct ids
  pub plain : all_of is_valid_account_id ids ≡ true

Distinct-snoc :
    (xs : List Text) (x : Text) → Distinct xs → contains xs x ≡ false → Distinct (xs ++ x ∷ [])
unfolding contains
Distinct-snoc [] x d h = ground arith
Distinct-snoc (y ∷ ys) x d h =
    ground (arith, Distinct-snoc ys x d.1, contains-append ys (x ∷ []) y, text_eq_sym x y)

all_of-snoc :
    (p : Text → Bool) (xs : List Text) (x : Text)
    → all_of p xs ≡ true
    → p x ≡ true
    → all_of p (xs ++ x ∷ []) ≡ true
all_of-snoc p [] x h k = ground arith
all_of-snoc p (y ∷ ys) x h k = ground (arith, all_of-snoc p ys x)

snoc-IdsValid :
    (xs : List Text) (x : Text)
    → IdsValid xs
    → length xs < max_accounts
    → contains xs x ≡ false
    → is_valid_account_id x ≡ true
    → IdsValid (xs ++ x ∷ [])
snoc-IdsValid xs x v h fresh ok = record {
  few = omega (arith, length-append xs (x ∷ []));
  lone = Distinct-snoc xs x v.lone fresh;
  plain = all_of-snoc is_valid_account_id xs x v.plain ok;
}

if-IdsValid :
    (b : Bool) (xs ys : List Text)
    → IdsValid ys
    → (b ≡ true → IdsValid xs)
    → IdsValid (if b then xs else ys)
if-IdsValid true xs ys v h = h refl
if-IdsValid false xs ys v h = v

if_not-IdsValid :
    (b : Bool) (xs ys : List Text)
    → IdsValid ys
    → (b ≡ false → IdsValid xs)
    → IdsValid (if b then ys else xs)
if_not-IdsValid true xs ys v h = v
if_not-IdsValid false xs ys v h = h refl

normalize_from-IdsValid :
    (ids result : List Text) → IdsValid result → IdsValid (normalize_from result ids)
unfolding normalize_from
normalize_from-IdsValid [] result v = v
normalize_from-IdsValid (id ∷ ids) result v = elim (Bool-cases (leb max_accounts (length result))) [
  | inl full ↦ rw full v
  | inr room ↦ rw room (
      normalize_from-IdsValid ids _ (
        if-IdsValid (is_valid_account_id id && not (contains result id)) _ result v
          (λ e. snoc-IdsValid result id v (ground arith) (ground arith) (ground arith))))
]

pub empty-IdsValid : IdsValid []
empty-IdsValid = record { few = omega arith; lone = tt; plain = refl }

pub normalize_account_ids-IdsValid : (ids : List Text) → IdsValid (normalize_account_ids ids)
unfolding normalize_account_ids
normalize_account_ids-IdsValid ids = normalize_from-IdsValid ids [] empty-IdsValid

pub merge_ids-IdsValid :
    (ids existing : List Text)
    → IdsValid existing
    → all_of is_valid_account_id ids ≡ true
    → IdsValid (merge_ids existing ids)
unfolding merge_ids
merge_ids-IdsValid [] existing v h = v
merge_ids-IdsValid (id ∷ ids) existing v h =
    elim (Bool-cases (leb max_accounts (length existing))) [
      | inl full ↦ rw full v
      | inr room ↦ rw room (
          merge_ids-IdsValid ids _
            (if_not-IdsValid (contains existing id) _ existing v
              (λ e. snoc-IdsValid existing id v (ground arith) e (ground arith)))
            (ground arith))
    ]

all_of-without :
    (p : Text → Bool) (a : Text) (xs : List Text)
    → all_of p xs ≡ true
    → all_of p (without a xs) ≡ true
unfolding without
all_of-without p a [] h = refl
all_of-without p a (x ∷ xs) h = ground (arith, all_of-without p a xs)

pub without-IdsValid : (a : Text) (ids : List Text) → IdsValid ids → IdsValid (without a ids)
without-IdsValid a ids v = record {
  few = omega (arith, v.few, length-without-le a ids);
  lone = without-Distinct a ids v.lone;
  plain = all_of-without is_valid_account_id a ids v.plain;
}
