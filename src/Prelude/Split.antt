-- ===== src/Prelude/Split.antt =====
-- `str::split`, `split_once` and `parse::<u64>`.
use Prim.Native.Nat.{ℕ, ◌+◌, ◌-◌, ◌*◌}
use mathlib.Core.Bool.{Bool, true, false, ◌&&◌}
use mathlib.Core.List.{List, [], ◌∷◌}
use mathlib.Core.Option.{Option, none, some}
use ai_usage_tracker.Prelude.Tests.{ltb, ◌==◌, if◌then◌else◌}
use ai_usage_tracker.Prelude.Lists.{all_of}
use ai_usage_tracker.Prelude.Chars.{Text, is_ascii_digit}

-- Puts a character in front of the first piece.
abbrev pub push_head : ℕ → List Text → List Text
push_head c [] = (c ∷ []) ∷ []
push_head c (piece ∷ pieces) = (c ∷ piece) ∷ pieces

-- The pieces between the characters that pass the test, empty ones included.
unfoldable pub split_on : (ℕ → Bool) → Text → List Text
split_on p [] = [] ∷ []
split_on p (c ∷ cs) = let pieces = split_on p cs in if p c then [] ∷ pieces else push_head c pieces

abbrev pub is_nonempty : Text → Bool
is_nonempty [] = false
is_nonempty (c ∷ cs) = true

-- `split_once(c)`: what stands before and after the first `c`.
unfoldable pub split_once : ℕ → Text → Option (Text × Text)
split_once c [] = none
split_once c (x ∷ xs) =
    if x == c
    then some ([], xs)
    else elim (split_once c xs) [ none ↦ none | some (a, b) ↦ some (x ∷ a, b) ]

abbrev pub u64_bound : ℕ
u64_bound = 18_446_744_073_709_551_616

unfoldable pub digits_value : ℕ → Text → ℕ
digits_value acc [] = acc
digits_value acc (c ∷ cs) = digits_value (acc * 10 + (c - b'0')) cs

-- The parser on digits alone; a value past `u64::MAX` is an error.
unfoldable pub parse_digits : Text → Option ℕ
parse_digits [] = none
parse_digits (c ∷ cs) =
    if all_of is_ascii_digit (c ∷ cs) && ltb (digits_value 0 (c ∷ cs)) u64_bound
    then some (digits_value 0 (c ∷ cs))
    else none

-- `parse::<u64>`, which takes one leading plus sign.
unfoldable pub parse_u64 : Text → Option ℕ
unfolding parse_digits digits_value
parse_u64 [] = none
parse_u64 (c ∷ cs) = if c == b'+' then parse_digits cs else parse_digits (c ∷ cs)
