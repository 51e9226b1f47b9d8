-- ===== src/Prelude/Visible.antt =====
-- Texts without white space, which `trim` leaves alone.
use Prim.Native.Nat.{ℕ}
use mathlib.Core.Path.{◌≡◌, refl}
use mathlib.Core.Bool.{Bool, true, not}
use mathlib.Core.List.{[], ◌∷◌, reverse, reverse-cons, reverse-reverse}
use native.Mathlib.Omega.{arith}
use ai_usage_tracker.Prelude.Lists.{all_of}
use ai_usage_tracker.Prelude.Chars.{Text, is_whitespace, trim_start, trim}
use ai_usage_tracker.Prelude.Decimal.{all_of-append}

abbrev pub is_visible : ℕ → Bool
is_visible c = not (is_whitespace c)

trim_start_visible : (s : Text) → all_of is_visible s ≡ true → trim_start s ≡ s
unfolding trim_start
trim_start_visible [] h = refl
trim_start_visible (c ∷ cs) h = ground (arith, h)

all_of-reverse : (p : ℕ → Bool) (s : Text) → all_of p s ≡ true → all_of p (reverse s) ≡ true
all_of-reverse p [] h = refl
all_of-reverse p (c ∷ cs) h =
    rw (reverse-cons, all_of-append) (ground (arith, all_of-reverse p cs, h))

-- A text without white space is not changed by `trim`.
pub trim_visible : (s : Text) → all_of is_visible s ≡ true → trim s ≡ s
unfolding trim
trim_visible s h =
    rw (trim_start_visible s h, trim_start_visible (reverse s) (all_of-reverse is_visible s h))
      (reverse-reverse s)
