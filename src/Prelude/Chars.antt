-- ===== src/Prelude/Chars.antt =====
-- Rust's `String` as the list of its Unicode scalar values, and what the code uses of `char` and
-- `str`. The order of texts is that of their scalar values, which is the order of their UTF-8 bytes.
use Prim.Native.Nat.{ℕ, ◌+◌, ◌/◌, ◌%◌}
use Prim.Native.Char.{code}
use Prim.Native.String.{String}
use mathlib.Core.Path.{◌≡◌, refl}
use mathlib.Core.Logic.{◌↔◌}
use mathlib.Core.Bool.{Bool, true, false, ◌&&◌, ◌||◌}
use mathlib.Core.List.{List, [], ◌∷◌, ◌++◌, reverse, map}
use native.Mathlib.Omega.{arith}
use ai_usage_tracker.Prelude.Tests.{ltb, leb, ◌==◌, if◌then◌else◌}

abbrev pub Text : Type 0
Text = List ℕ

-- A text literal.
abbrev pub codes : String → Text
codes String.[] = []
codes (String.◌∷◌ c s) = code c ∷ codes s

-- `==` on strings.
unfoldable pub text_eq : Text → Text → Bool
text_eq [] [] = true
text_eq [] (b ∷ bs) = false
text_eq (a ∷ as') [] = false
text_eq (a ∷ as') (b ∷ bs) = a == b && text_eq as' bs

pub text_eq_refl : (a : Text) → text_eq a a ≡ true
unfolding text_eq
text_eq_refl [] = refl
text_eq_refl (a ∷ as') = ground (arith, text_eq_refl as')

pub eq_of_text_eq : (a b : Text) → text_eq a b ≡ true → a ≡ b
unfolding text_eq
eq_of_text_eq [] [] h = refl
eq_of_text_eq [] (b ∷ bs) h = cc
eq_of_text_eq (a ∷ as') [] h = cc
eq_of_text_eq (a ∷ as') (b ∷ bs) h = ground (arith, eq_of_text_eq as' bs)

pub text_eq_iff : (a b : Text) → (text_eq a b ≡ true) ↔ (a ≡ b)
text_eq_iff a b = (eq_of_text_eq a b, λ e. rw e (text_eq_refl b))

pub text_eq_sym : (a b : Text) → text_eq a b ≡ text_eq b a
unfolding text_eq
text_eq_sym [] [] = refl
text_eq_sym [] (b ∷ bs) = refl
text_eq_sym (a ∷ as') [] = refl
text_eq_sym (a ∷ as') (b ∷ bs) = ground (arith, text_eq_sym as' bs)

-- The order of `str`, lexicographic by scalar value.
unfoldable pub text_leb : Text → Text → Bool
text_leb [] bs = true
text_leb (a ∷ as') [] = false
text_leb (a ∷ as') (b ∷ bs) = ltb a b || (a == b && text_leb as' bs)

pub text_leb_refl : (a : Text) → text_leb a a ≡ true
unfolding text_leb
text_leb_refl [] = refl
text_leb_refl (a ∷ as') = ground (arith, text_leb_refl as')

pub text_leb_antisym : (a b : Text) → text_leb a b ≡ true → text_leb b a ≡ true → a ≡ b
unfolding text_leb
text_leb_antisym [] [] h k = refl
text_leb_antisym [] (b ∷ bs) h k = cc
text_leb_antisym (a ∷ as') [] h k = cc
text_leb_antisym (a ∷ as') (b ∷ bs) h k = ground (arith, text_leb_antisym as' bs)

pub text_leb_total : (a b : Text) → text_leb a b ≡ false → text_leb b a ≡ true
unfolding text_leb
text_leb_total [] bs h = cc
text_leb_total (a ∷ as') [] h = refl
text_leb_total (a ∷ as') (b ∷ bs) h = ground (arith, text_leb_total as' bs)

pub text_leb_trans :
    (a b c : Text) → text_leb a b ≡ true → text_leb b c ≡ true → text_leb a c ≡ true
unfolding text_leb
text_leb_trans [] b c h k = refl
text_leb_trans (a ∷ as') [] c h k = cc
text_leb_trans (a ∷ as') (b ∷ bs) [] h k = cc
text_leb_trans (a ∷ as') (b ∷ bs) (c ∷ cs) h k = ground (arith, text_leb_trans as' bs cs)

-- `list.contains(&text)`
unfoldable pub contains : List Text → Text → Bool
contains [] a = false
contains (x ∷ xs) a = text_eq x a || contains xs a

unfoldable pub is_digit : ℕ → Bool
is_digit c = leb b'0' c && leb c b'9'

unfoldable pub is_upper : ℕ → Bool
is_upper c = leb b'A' c && leb c b'Z'

unfoldable pub is_lower : ℕ → Bool
is_lower c = leb b'a' c && leb c b'z'

-- `is_ascii_alphanumeric`, of a byte or of a `char`.
unfoldable pub is_ascii_alphanumeric : ℕ → Bool
unfolding is_digit is_upper is_lower
is_ascii_alphanumeric c = is_digit c || is_upper c || is_lower c

unfoldable pub is_ascii_digit : ℕ → Bool
unfolding is_digit
is_ascii_digit c = is_digit c

-- `char::is_whitespace`: the Unicode property White_Space.
unfoldable pub is_whitespace : ℕ → Bool
is_whitespace c =
    (leb 0x9 c && leb c 0xD)
    || c == 0x20
    || c == 0x85
    || c == 0xA0
    || c == 0x1680
    || (leb 0x2000 c && leb c 0x200A)
    || c == 0x2028
    || c == 0x2029
    || c == 0x202F
    || c == 0x205F
    || c == 0x3000

unfoldable pub trim_start : Text → Text
trim_start [] = []
trim_start (c ∷ cs) = if is_whitespace c then trim_start cs else c ∷ cs

-- `str::trim`
unfoldable pub trim : Text → Text
unfolding trim_start
trim s = reverse (trim_start (reverse (trim_start s)))

unfoldable pub to_ascii_lower : ℕ → ℕ
unfolding is_upper
to_ascii_lower c = if is_upper c then c + 32 else c

-- `to_ascii_lowercase`
abbrev pub to_ascii_lowercase : Text → Text
to_ascii_lowercase s = map to_ascii_lower s

abbrev pub eq_ignore_ascii_case : Text → Text → Bool
eq_ignore_ascii_case a b = text_eq (to_ascii_lowercase a) (to_ascii_lowercase b)

-- The bytes of a scalar value in UTF-8, and its code units in UTF-16.
unfoldable pub utf8_width : ℕ → ℕ
utf8_width c = if ltb c 0x80 then 1 else if ltb c 0x800 then 2 else if ltb c 0x10000 then 3 else 4

unfoldable pub utf16_width : ℕ → ℕ
utf16_width c = if ltb c 0x10000 then 1 else 2

-- `str::len`, in bytes.
unfoldable pub byte_len : Text → ℕ
unfolding utf8_width
byte_len [] = 0
byte_len (c ∷ cs) = utf8_width c + byte_len cs

-- The number of code units of `str::encode_utf16`.
unfoldable pub utf16_len : Text → ℕ
utf16_len [] = 0
utf16_len (c ∷ cs) = utf16_width c + utf16_len cs

unfoldable pub utf8_bytes : ℕ → List ℕ
utf8_bytes c =
    if ltb c 0x80
    then c ∷ []
    else if ltb c 0x800
    then (0xC0 + c / 64) ∷ (0x80 + c % 64) ∷ []
    else if ltb c 0x10000
    then (0xE0 + c / 4096) ∷ (0x80 + (c / 64) % 64) ∷ (0x80 + c % 64) ∷ []
    else (0xF0 + c / 262144)
      ∷ (0x80 + (c / 4096) % 64)
      ∷ (0x80 + (c / 64) % 64)
      ∷ (0x80 + c % 64)
      ∷ []

-- `str::as_bytes`
unfoldable pub as_bytes : Text → List ℕ
unfolding utf8_bytes
as_bytes [] = []
as_bytes (c ∷ cs) = utf8_bytes c ++ as_bytes cs
