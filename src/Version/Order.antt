-- ===== src/Version/Order.antt =====
-- The order of versions that `is_newer_version` decides.
use ai_usage_tracker.Prelude.{
  ℕ, ◌≡◌, refl, inl, inr, Bool, true, false, not, Option, none, some, List, [], ◌∷◌, arith,
  Bool-cases, Text, text_eq, text_eq_iff, text_eq_refl, text_eq_sym, text_leb_refl, text_leb_total,
  text_leb_trans,
}
use ai_usage_tracker.Prelude.Split.{parse_u64}
use ai_usage_tracker.Version.{
  token_newer, newer_tokens, newer_parts, tokens, newer_pre, newer_split, split_version,
  is_newer_version,
}

token_newer_asym :
    (p q : Option ℕ) (c u : Text)
    → text_eq c u ≡ false
    → token_newer p q c u ≡ true
    → token_newer q p u c ≡ false
token_newer_asym (some n) (some m) c u d h = ground arith
token_newer_asym (some n) none c u d h = cc
token_newer_asym none (some m) c u d h = refl
token_newer_asym none none c u d h = ground (arith, text_leb_total c u)

token_newer_trans :
    (p q r : Option ℕ) (a b c : Text)
    → token_newer p q a b ≡ true
    → token_newer q r b c ≡ true
    → token_newer p r a c ≡ true
token_newer_trans (some n) (some m) (some k) a b c g h = ground arith
token_newer_trans (some n) (some m) none a b c g h = cc
token_newer_trans (some n) none r a b c g h = cc
token_newer_trans none (some m) (some k) a b c g h = refl
token_newer_trans none (some m) none a b c g h = cc
token_newer_trans none none (some k) a b c g h = refl
token_newer_trans none none none a b c g h =
    ground
      (arith, text_leb_total a b, text_leb_total b c, text_leb_trans c b a, text_leb_trans a c b)

-- A token is not newer than itself.
token_newer_irrefl : (p : Option ℕ) (c : Text) → token_newer p p c c ≡ false
token_newer_irrefl (some n) c = ground arith
token_newer_irrefl none c = rw (text_leb_refl c) refl

newer_tokens_irrefl : (cs : List Text) → newer_tokens cs cs ≡ false
unfolding newer_tokens
newer_tokens_irrefl [] = refl
newer_tokens_irrefl (c ∷ cs) = rw (text_eq_refl c) (newer_tokens_irrefl cs)

newer_tokens_asym : (cs us : List Text) → newer_tokens cs us ≡ true → newer_tokens us cs ≡ false
unfolding newer_tokens
newer_tokens_asym [] [] h = cc
newer_tokens_asym [] (u ∷ us) h = cc
newer_tokens_asym (c ∷ cs) [] h = refl
newer_tokens_asym (c ∷ cs) (u ∷ us) h = elim (Bool-cases (text_eq c u)) [
  | inl e ↦ ground (arith, e, text_eq_sym u c, newer_tokens_asym cs us)
  | inr n ↦ ground (arith, n, text_eq_sym u c, token_newer_asym (parse_u64 c) (parse_u64 u) c u n)
]

newer_tokens_trans :
    (as' bs cs : List Text)
    → newer_tokens as' bs ≡ true
    → newer_tokens bs cs ≡ true
    → newer_tokens as' cs ≡ true
unfolding newer_tokens
newer_tokens_trans [] [] cs g h = cc
newer_tokens_trans [] (b ∷ bs) cs g h = cc
newer_tokens_trans (a ∷ as') bs [] g h = refl
newer_tokens_trans (a ∷ as') [] (c ∷ cs) g h = cc
newer_tokens_trans (a ∷ as') (b ∷ bs) (c ∷ cs) g h = ground (
  arith,
  text_eq_iff a b,
  text_eq_iff b c,
  text_eq_iff a c,
  newer_tokens_trans as' bs cs,
  token_newer_trans (parse_u64 a) (parse_u64 b) (parse_u64 c) a b c,
  token_newer_irrefl (parse_u64 a) a,
)

newer_parts_swap :
    (as' bs : List ℕ)
    → newer_parts bs as' ≡ (elim (newer_parts as' bs) [ none ↦ none | some x ↦ some (not x) ])
unfolding newer_parts
newer_parts_swap [] [] = refl
newer_parts_swap [] (b ∷ bs) = ground (arith, newer_parts_swap [] bs)
newer_parts_swap (a ∷ as') [] = ground (arith, newer_parts_swap as' [])
newer_parts_swap (a ∷ as') (b ∷ bs) = ground (arith, newer_parts_swap as' bs)

-- The answer on three lists: the first difference from the middle one decides.
abbrev Composes : Option Bool → Option Bool → Option Bool → Type 0
Composes none q r = r ≡ q
Composes (some x) none r = r ≡ some x
Composes (some true) (some true) r = r ≡ some true
Composes (some false) (some false) r = r ≡ some false
Composes (some x) (some y) r = Unit {0}

newer_parts_trans :
    (as' bs cs : List ℕ) → Composes (newer_parts as' bs) (newer_parts bs cs) (newer_parts as' cs)
unfolding newer_parts
newer_parts_trans [] [] cs = refl
newer_parts_trans [] (b ∷ bs) [] = ground (arith, newer_parts_trans [] bs [])
newer_parts_trans [] (b ∷ bs) (c ∷ cs) = ground (arith, newer_parts_trans [] bs cs)
newer_parts_trans (a ∷ as') [] [] = ground (arith, newer_parts_trans as' [] [])
newer_parts_trans (a ∷ as') [] (c ∷ cs) = ground (arith, newer_parts_trans as' [] cs)
newer_parts_trans (a ∷ as') (b ∷ bs) [] = ground (arith, newer_parts_trans as' bs [])
newer_parts_trans (a ∷ as') (b ∷ bs) (c ∷ cs) = ground (arith, newer_parts_trans as' bs cs)

newer_pre_asym : (c u : Option Text) → newer_pre c u ≡ true → newer_pre u c ≡ false
unfolding newer_pre
newer_pre_asym none none h = cc
newer_pre_asym none (some u) h = refl
newer_pre_asym (some c) none h = cc
newer_pre_asym (some c) (some u) h = newer_tokens_asym (tokens c) (tokens u) h

newer_pre_trans :
    (a b c : Option Text) → newer_pre a b ≡ true → newer_pre b c ≡ true → newer_pre a c ≡ true
unfolding newer_pre
newer_pre_trans none none c g h = cc
newer_pre_trans none (some b) none g h = cc
newer_pre_trans none (some b) (some c) g h = refl
newer_pre_trans (some a) none c g h = cc
newer_pre_trans (some a) (some b) none g h = cc
newer_pre_trans (some a) (some b) (some c) g h =
    newer_tokens_trans (tokens a) (tokens b) (tokens c) g h

newer_split_asym : (x y : List ℕ × Option Text) → newer_split x y ≡ true → newer_split y x ≡ false
unfolding newer_split
newer_split_asym (as', p) (bs, q) h = ground (arith, newer_parts_swap as' bs, newer_pre_asym p q)

newer_split_trans :
    (x y z : List ℕ × Option Text)
    → newer_split x y ≡ true
    → newer_split y z ≡ true
    → newer_split x z ≡ true
unfolding newer_split
newer_split_trans (as', p) (bs, q) (cs, r) g h =
    ground (arith, newer_parts_trans as' bs cs, newer_pre_trans p q r)

-- If a version is newer than another, the other is not newer than it.
is_newer_version_asym : (a b : Text) → is_newer_version a b ≡ true → is_newer_version b a ≡ false
unfolding is_newer_version
is_newer_version_asym a b h = newer_split_asym (split_version a) (split_version b) h

-- What is newer than a newer version is newer.
is_newer_version_trans :
    (a b c : Text)
    → is_newer_version a b ≡ true
    → is_newer_version b c ≡ true
    → is_newer_version a c ≡ true
unfolding is_newer_version
is_newer_version_trans a b c g h =
    newer_split_trans (split_version a) (split_version b) (split_version c) g h
