-- ===== src/Prelude/Sets.antt =====
-- Lists of texts as sets: no repetition, inclusion, and `HashSet<&str>`.
use Prim.Native.Nat.{suc, ◌≤◌, ◌<◌}
use mathlib.Core.Path.{◌≡◌, refl}
use mathlib.Core.Logic.{inl, inr}
use mathlib.Core.Bool.{Bool, true, false, not, ◌&&◌, ◌||◌}
use mathlib.Core.List.{List, [], ◌∷◌, ◌++◌}
use native.Mathlib.Omega.{arith}
use ai_usage_tracker.Prelude.Tests.{if◌then◌else◌, ◌==◌, Bool-cases}
use ai_usage_tracker.Prelude.Lists.{length}
use ai_usage_tracker.Prelude.Chars.{
  Text, text_eq, text_eq_refl, eq_of_text_eq, text_eq_iff, contains,
}

-- No text twice.
abbrev pub Distinct : List Text → Type 0
Distinct [] = Unit {0}
Distinct (x ∷ xs) = (contains xs x ≡ false) × Distinct xs

-- `xs.retain(|x| x != a)`
unfoldable pub without : Text → List Text → List Text
without a [] = []
without a (x ∷ xs) = if text_eq x a then without a xs else x ∷ without a xs

pub contains-without :
    (a b : Text) (xs : List Text) → contains (without a xs) b ≡ (contains xs b && not (text_eq a b))
unfolding contains without
contains-without a b [] = refl
contains-without a b (x ∷ xs) =
    ground (arith, contains-without a b xs, text_eq_iff x a, text_eq_iff x b, text_eq_iff a b)

pub without_absent : (a : Text) (xs : List Text) → contains xs a ≡ false → without a xs ≡ xs
unfolding contains without
without_absent a [] h = refl
without_absent a (x ∷ xs) h = ground (arith, without_absent a xs)

pub without-Distinct : (a : Text) (xs : List Text) → Distinct xs → Distinct (without a xs)
unfolding without
without-Distinct a [] h = tt
without-Distinct a (x ∷ xs) h = ground (arith, without-Distinct a xs h.1, contains-without a x xs)

pub length-without-le : (a : Text) (xs : List Text) → length (without a xs) ≤ length xs
unfolding without
length-without-le a [] = omega arith
length-without-le a (x ∷ xs) = ground (arith, length-without-le a xs)

pub length-without-Distinct :
    (a : Text) (xs : List Text)
    → Distinct xs
    → contains xs a ≡ true
    → suc (length (without a xs)) ≡ length xs
unfolding contains without
length-without-Distinct a [] d h = cc
length-without-Distinct a (x ∷ xs) d h = elim (Bool-cases (text_eq x a)) [
  | inl e ↦
      let same = eq_of_text_eq x a e in
      ground (arith, e, same, without_absent x xs d.0, without_absent a xs)
  | inr n ↦ ground (arith, n, length-without-Distinct a xs d.1)
]

-- A removal that does not shorten the list removes nothing.
pub without_same_length :
    (a : Text) (xs : List Text) → length (without a xs) ≡ length xs → without a xs ≡ xs
unfolding without
without_same_length a [] h = refl
without_same_length a (x ∷ xs) h = ground (arith, without_same_length a xs, length-without-le a xs)

-- `collect::<HashSet<_>>()`
unfoldable pub to_set : List Text → List Text
to_set [] = []
to_set (x ∷ xs) = let rest = to_set xs in if contains rest x then rest else x ∷ rest

unfoldable pub includes : List Text → List Text → Bool
includes big [] = true
includes big (x ∷ xs) = contains big x && includes big xs

-- `==` of `HashSet`: as many elements, each of one in the other.
unfoldable pub set_eq : List Text → List Text → Bool
set_eq xs ys = length xs == length ys && includes ys xs

pub includes-contains :
    (big xs : List Text) (a : Text)
    → includes big xs ≡ true
    → contains xs a ≡ true
    → contains big a ≡ true
unfolding includes contains
includes-contains big [] a h k = cc
includes-contains big (x ∷ xs) a h k = ground (arith, includes-contains big xs a, text_eq_iff x a)

pub contains-to_set : (xs : List Text) (a : Text) → contains (to_set xs) a ≡ contains xs a
unfolding to_set contains
contains-to_set [] a = refl
contains-to_set (x ∷ xs) a =
    ground (arith, contains-to_set xs a, contains-to_set xs x, text_eq_iff x a)

pub length-to_set-le : (xs : List Text) → length (to_set xs) ≤ length xs
unfolding to_set
length-to_set-le [] = omega arith
length-to_set-le (x ∷ xs) = ground (arith, length-to_set-le xs)

pub to_set-Distinct : (xs : List Text) → Distinct (to_set xs)
unfolding to_set
to_set-Distinct [] = tt
to_set-Distinct (x ∷ xs) = ground (arith, to_set-Distinct xs)

-- A list is as long as its set exactly when it repeats nothing.
pub Distinct-of_length : (xs : List Text) → length (to_set xs) ≡ length xs → Distinct xs
unfolding to_set
Distinct-of_length [] h = tt
Distinct-of_length (x ∷ xs) h =
    ground (arith, Distinct-of_length xs, length-to_set-le xs, contains-to_set xs x)

pub to_set_self : (xs : List Text) → Distinct xs → to_set xs ≡ xs
unfolding to_set
to_set_self [] d = refl
to_set_self (x ∷ xs) d = ground (arith, to_set_self xs d.1)

pub contains-append :
    (xs ys : List Text) (k : Text) → contains (xs ++ ys) k ≡ (contains xs k || contains ys k)
unfolding contains
contains-append [] ys k = refl
contains-append (x ∷ xs) ys k = ground (arith, contains-append xs ys k)

-- What stands before an element of a list with no repetition is not that element.
pub Distinct-before :
    (xs : List Text) (k : Text) (ys : List Text) → Distinct (xs ++ k ∷ ys) → contains xs k ≡ false
unfolding contains
Distinct-before [] k ys d = refl
Distinct-before (x ∷ xs) k ys d = ground (
  arith,
  Distinct-before xs k ys d.1,
  contains-append xs (k ∷ ys) x,
  text_eq_iff x k,
  text_eq_refl k,
)

pub length-without-lt :
    (a : Text) (xs : List Text) → contains xs a ≡ true → length (without a xs) < length xs
unfolding contains without
length-without-lt a [] h = cc
length-without-lt a (x ∷ xs) h = ground (arith, length-without-lt a xs, length-without-le a xs)
