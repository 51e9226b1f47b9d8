-- ===== src/Prelude/Counting.antt =====
-- Sets by their size: a list with no repetition that lies in a list as long has all its texts.
use Prim.Native.Nat.{◌≤◌}
use mathlib.Core.Path.{◌≡◌, refl}
use mathlib.Core.Logic.{inl, inr}
use mathlib.Core.Bool.{true, false}
use mathlib.Core.List.{List, [], ◌∷◌}
use native.Mathlib.Omega.{arith}
use ai_usage_tracker.Prelude.Tests.{Bool-cases}
use ai_usage_tracker.Prelude.Lists.{length}
use ai_usage_tracker.Prelude.Chars.{Text, text_eq_iff, text_eq_refl, contains}
use ai_usage_tracker.Prelude.Sets.{
  Distinct, without, includes, contains-without, without-Distinct, length-without-Distinct,
  includes-contains,
}

includes-without :
    (ys xs : List Text) (a : Text)
    → includes ys xs ≡ true
    → contains xs a ≡ false
    → includes (without a ys) xs ≡ true
unfolding includes contains
includes-without ys [] a h k = refl
includes-without ys (x ∷ xs) a h k =
    ground
      (arith, includes-without ys xs a, contains-without a x ys, text_eq_iff x a, text_eq_iff a x)

pub length-le_of_includes :
    (xs ys : List Text) → Distinct xs → Distinct ys → includes ys xs ≡ true → length xs ≤ length ys
unfolding includes
length-le_of_includes [] ys d e h = omega arith
length-le_of_includes (x ∷ xs) ys d e h =
    let fewer : length xs ≤ length (without x ys) =
      length-le_of_includes xs (without x ys) d.1 (without-Distinct x ys e)
        (includes-without ys xs x (ground (arith, h)) d.0) in
    omega (arith, fewer, length-without-Distinct x ys e (ground (arith, h)))

pub contains_of_length :
    (xs ys : List Text) (a : Text)
    → Distinct xs
    → Distinct ys
    → includes ys xs ≡ true
    → length xs ≡ length ys
    → contains xs a ≡ contains ys a
contains_of_length xs ys a d e h n = elim (Bool-cases (contains xs a)) [
  | inl p ↦ rw (p, includes-contains ys xs a h p) refl
  | inr p ↦ elim (Bool-cases (contains ys a)) [
    | inl q ↦ absurd (
        omega (
          arith,
          length-le_of_includes xs (without a ys) d (without-Distinct a ys e)
              (includes-without ys xs a h p),
          length-without-Distinct a ys e q,
          n,
        ))
    | inr q ↦ rw (p, q) refl
  ]
]

pub includes_of_contains :
    (ys xs : List Text)
    → ((a : Text) → contains xs a ≡ true → contains ys a ≡ true)
    → includes ys xs ≡ true
unfolding includes contains
includes_of_contains ys [] h = refl
includes_of_contains ys (x ∷ xs) h =
    ground (arith, h x, text_eq_refl x, includes_of_contains ys xs (λ a k. h a (ground (arith, k))))
