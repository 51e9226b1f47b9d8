-- ===== src/Prelude/Decimal.antt =====
-- `to_string` of an unsigned number, and `{:02x}` of a byte.
use Prim.Native.Nat.{ℕ, zero, suc, ◌+◌, ◌-◌, ◌*◌, ◌/◌, ◌%◌, ◌≤◌, ◌<◌}
use mathlib.Core.Path.{◌≡◌, refl, ap, ◌∙◌}
use mathlib.Core.Logic.{inl, inr}
use mathlib.Core.Bool.{Bool, true, false, ◌&&◌}
use mathlib.Core.List.{[], ◌∷◌, ◌++◌}
use mathlib.Core.Option.{some}
use native.Mathlib.Omega.{arith}
use ai_usage_tracker.Prelude.Tests.{ltb, if◌then◌else◌, Bool-cases}
use ai_usage_tracker.Prelude.Lists.{all_of, length}
use ai_usage_tracker.Prelude.Chars.{Text, is_digit, is_ascii_digit}
use ai_usage_tracker.Prelude.Split.{digits_value, parse_digits, parse_u64, u64_bound, is_nonempty}

-- The digits of a number, the last one first taken off; the fuel bounds their count.
pub decimal_from : ℕ → ℕ → Text
decimal_from zero n = (b'0' + n % 10) ∷ []
decimal_from (suc fuel) n = elim (ltb n 10) [
  | true ↦ (b'0' + n % 10) ∷ []
  | false ↦ decimal_from fuel (n / 10) ++ (b'0' + n % 10) ∷ []
]

-- A number needs no more digits than its value.
unfoldable pub decimal : ℕ → Text
unfolding decimal_from
decimal n = decimal_from n n

pub all_of-append :
    (p : ℕ → Bool) (xs ys : Text) → all_of p (xs ++ ys) ≡ (all_of p xs && all_of p ys)
all_of-append p [] ys = refl
all_of-append p (x ∷ xs) ys = ground (arith, all_of-append p xs ys)

pub digits_value-append :
    (acc : ℕ) (xs : Text) (c : ℕ)
    → digits_value acc (xs ++ c ∷ []) ≡ digits_value acc xs * 10 + (c - b'0')
unfolding digits_value
digits_value-append acc [] c = refl
digits_value-append acc (x ∷ xs) c = digits_value-append (acc * 10 + (x - b'0')) xs c

rem_lt : (m : ℕ) → m % 10 < 10
rem_lt m = omega arith

pub decimal_from-digits : (fuel n : ℕ) → all_of is_ascii_digit (decimal_from fuel n) ≡ true
unfolding decimal_from is_ascii_digit is_digit
decimal_from-digits zero n = ground (arith, rem_lt n)
decimal_from-digits (suc fuel) n = elim (Bool-cases (ltb n 10)) [
  | inl e ↦ rw (e, decimal_from) (ground (arith, rem_lt n))
  | inr e ↦
      rw (e, decimal_from, all_of-append)
        (ground (arith, rem_lt n, decimal_from-digits fuel (n / 10)))
]

pub decimal_from-value : (fuel n : ℕ) → n ≤ fuel → digits_value 0 (decimal_from fuel n) ≡ n
unfolding decimal_from digits_value
decimal_from-value zero n h = omega arith
decimal_from-value (suc fuel) n h = elim (Bool-cases (ltb n 10)) [
  | inl e ↦ rw (e, decimal_from) (ground arith)
  | inr e ↦
      rw (e, decimal_from, digits_value-append, decimal_from-value fuel (n / 10) (ground arith))
        (omega arith)
]

pub decimal_from-nonempty : (fuel n : ℕ) → is_nonempty (decimal_from fuel n) ≡ true
unfolding decimal_from
decimal_from-nonempty zero n = refl
decimal_from-nonempty (suc fuel) n = elim (Bool-cases (ltb n 10)) [
  | inl e ↦ rw (e, decimal_from) refl
  | inr e ↦ rw (e, decimal_from) (nonempty_last (decimal_from fuel (n / 10)) _)
]
  where
    nonempty_last : (xs : Text) (c : ℕ) → is_nonempty (xs ++ c ∷ []) ≡ true
    nonempty_last [] c = refl
    nonempty_last (x ∷ xs) c = refl

parse_u64_digits :
    (s : Text)
    → is_nonempty s ≡ true
    → all_of is_ascii_digit s ≡ true
    → digits_value 0 s < u64_bound
    → parse_u64 s ≡ some (digits_value 0 s)
unfolding parse_u64 parse_digits is_ascii_digit is_digit
parse_u64_digits [] h d b = cc
parse_u64_digits (c ∷ cs) h d b = ground (arith, d, b)

pub parse_u64-decimal : (n : ℕ) → n < u64_bound → parse_u64 (decimal n) ≡ some n
unfolding decimal
parse_u64-decimal n h =
    let value : digits_value 0 (decimal_from n n) ≡ n = decimal_from-value n n (omega arith) in
    parse_u64_digits (decimal_from n n) (decimal_from-nonempty n n) (decimal_from-digits n n)
      (rw value h)
    ∙ ap some value

pub all_of-imp :
    (p q : ℕ → Bool) (xs : Text)
    → ((c : ℕ) → p c ≡ true → q c ≡ true)
    → all_of p xs ≡ true
    → all_of q xs ≡ true
all_of-imp p q [] h k = refl
all_of-imp p q (x ∷ xs) h k = ground (arith, h x, all_of-imp p q xs h)

pub decimal-digits : (n : ℕ) → all_of is_ascii_digit (decimal n) ≡ true
unfolding decimal
decimal-digits n = decimal_from-digits n n

-- One hexadecimal digit in lower case, and in upper case.
unfoldable pub hex_lower : ℕ → ℕ
hex_lower d = if ltb d 10 then b'0' + d else b'a' + (d - 10)

unfoldable pub hex_upper : ℕ → ℕ
hex_upper d = if ltb d 10 then b'0' + d else b'A' + (d - 10)

length-snoc : (xs : Text) (c : ℕ) → length (xs ++ c ∷ []) ≡ suc (length xs)
length-snoc [] c = refl
length-snoc (x ∷ xs) c = ap suc (length-snoc xs c)

length-decimal_from : (fuel n : ℕ) → length (decimal_from fuel n) ≤ suc fuel
unfolding decimal_from
length-decimal_from zero n = omega arith
length-decimal_from (suc fuel) n = elim (Bool-cases (ltb n 10)) [
  | inl e ↦ rw (e, decimal_from) (omega arith)
  | inr e ↦ rw (e, decimal_from, length-snoc) (omega (arith, length-decimal_from fuel (n / 10)))
]

pub length-decimal : (n : ℕ) → length (decimal n) ≤ suc n
unfolding decimal
length-decimal n = length-decimal_from n n
