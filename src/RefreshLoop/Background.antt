-- ===== src/RefreshLoop/Background.antt =====
-- src-tauri/src/refresh_loop.rs: when a background run refreshes.
use ai_usage_tracker.Prelude.{
  ℕ, ◌-◌, ◌≤◌, ◌≡◌, refl, Bool, true, ◌&&◌, not, Option, none, some, List, [], ◌∷◌, ltb, leb, arith,
  Bool-cases, inl, inr, Text, ◌∙◌, all_of,
}
use ai_usage_tracker.Model.{Account}
use ai_usage_tracker.Limits.{is_empty}
use ai_usage_tracker.RefreshLoop.{
  later, fetched_of, newest_of, account_refresh_is_due, background_refresh_is_due,
}

-- A snapshot whose time cannot be read says nothing against a refresh.
abbrev pub is_old : ℕ → ℕ → Option ℕ → Bool
is_old now age none = true
is_old now age (some fetched) = leb age (now - fetched)

-- The snapshot is not from the future.
abbrev pub IsPast : ℕ → Option ℕ → Type 0
IsPast now none = Unit
IsPast now (some fetched) = fetched ≤ now

is_old-later :
    (now age : ℕ) (a b : Option ℕ)
    → is_old now age (later a b) ≡ (is_old now age a && is_old now age b)
is_old-later now age none b = refl
is_old-later now age (some a) none = ground arith
is_old-later now age (some a) (some b) = ground arith

later-IsPast : (now : ℕ) (a b : Option ℕ) → IsPast now a → IsPast now b → IsPast now (later a b)
later-IsPast now none b p q = q
later-IsPast now (some a) none p q = p
later-IsPast now (some a) (some b) p q = elim (Bool-cases (ltb a b)) [
  | inl e ↦ rw e q
  | inr e ↦ rw e p
]

due-is_old :
    (now age : ℕ) (newest : Option ℕ)
    → IsPast now newest
    → elim newest [ none ↦ true | some t ↦ account_refresh_is_due t now age ]
      ≡ is_old now age newest
unfolding account_refresh_is_due
due-is_old now age none p = refl
due-is_old now age (some t) p = ground arith

module _ {F : Type 0} (parse_time : Text → Option ℕ) where
  abbrev pub AllPast : ℕ → List (Account F) → Type 0
  AllPast now [] = Unit
  AllPast now (account ∷ rest) = IsPast now (fetched_of parse_time account) × AllPast now rest

  newest_of-IsPast :
      (now : ℕ) (accounts : List (Account F))
      → AllPast now accounts
      → IsPast now (newest_of parse_time accounts)
  unfolding newest_of
  newest_of-IsPast now [] h = tt
  newest_of-IsPast now (account ∷ rest) h =
      later-IsPast now (fetched_of parse_time account) (newest_of parse_time rest) h.0
        (newest_of-IsPast now rest h.1)

  is_old-newest_of :
      (now age : ℕ) (accounts : List (Account F))
      → is_old now age (newest_of parse_time accounts)
        ≡ all_of (λ account. is_old now age (fetched_of parse_time account)) accounts
  unfolding newest_of
  is_old-newest_of now age [] = refl
  is_old-newest_of now age (account ∷ rest) =
      is_old-later now age (fetched_of parse_time account) (newest_of parse_time rest)
      ∙ rw (is_old-newest_of now age rest) refl

  -- A background run is due exactly when there is an account and no account has a snapshot of a
  -- readable time that is less than the interval, shortened by 120 seconds, old, where no snapshot is
  -- from the future.
  pub background_refresh_is_due_lem :
      (accounts : List (Account F)) (now interval : ℕ)
      → AllPast now accounts
      → background_refresh_is_due parse_time accounts now interval ≡ (
          not (is_empty accounts)
          && all_of
              (λ account. is_old now (interval - 120) (fetched_of parse_time account))
              accounts)
  unfolding background_refresh_is_due
  background_refresh_is_due_lem [] now interval h = refl
  background_refresh_is_due_lem (account ∷ rest) now interval h =
      due-is_old now (interval - 120) (newest_of parse_time (account ∷ rest))
        (newest_of-IsPast now (account ∷ rest) h)
      ∙ is_old-newest_of now (interval - 120) (account ∷ rest)
