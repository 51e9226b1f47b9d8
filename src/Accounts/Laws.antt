-- ===== src/Accounts/Laws.antt =====
-- src-tauri/src/store/accounts.rs: which account a finished sign-in updates.
use ai_usage_tracker.Prelude.{
  ◌≡◌, Bool, true, false, Bool-cases, Option, none, some, List, [], ◌∷◌, All, Text, arith, inl, inr,
  Option-cases,
}
use ai_usage_tracker.Model.{Account, Provider, provider_eq}
use ai_usage_tracker.Accounts.Find.{
  find_account, has_id, emails_conflict, is_duplicate, find_duplicate, may_reconnect,
  reconnect_target, account_to_update,
}

module _ {F : Type 0} where
  find_account_passes :
      (p : Account F → Bool) (xs : List (Account F)) (a : Account F)
      → find_account p xs ≡ some a
      → p a ≡ true
  unfolding find_account
  find_account_passes p [] a h = cc
  find_account_passes p (x ∷ xs) a h = elim (Bool-cases (p x)) [
    | inl e ↦ ground (arith, e)
    | inr n ↦ ground (arith, n, find_account_passes p xs a)
  ]

  is_duplicate_safe :
      (provider : Provider) (account_id email : Option Text) (a : Account F)
      → is_duplicate provider account_id email a ≡ true
      → (provider_eq a.provider provider ≡ true) × (emails_conflict a.email email ≡ false)
  unfolding is_duplicate
  is_duplicate_safe provider account_id email a h = ground arith

  may_reconnect_safe :
      (provider : Provider) (account_id email : Option Text) (a : Account F)
      → may_reconnect provider account_id email a ≡ true
      → (provider_eq a.provider provider ≡ true) × (emails_conflict a.email email ≡ false)
  unfolding may_reconnect
  may_reconnect_safe provider account_id email a h = ground arith

  find_duplicate_safe :
      (provider : Provider) (account_id email : Option Text) (xs : List (Account F)) (a : Account F)
      → find_duplicate provider account_id email xs ≡ some a
      → (provider_eq a.provider provider ≡ true) × (emails_conflict a.email email ≡ false)
  unfolding find_duplicate
  find_duplicate_safe provider account_id email xs a h =
      is_duplicate_safe provider account_id email a
        (find_account_passes (is_duplicate provider account_id email) xs a h)

  reconnect_target_safe :
      (provider : Provider) (id account_id email : Option Text) (xs : List (Account F))
      (a : Account F)
      → reconnect_target provider id account_id email xs ≡ some a
      → may_reconnect provider account_id email a ≡ true
  unfolding reconnect_target
  reconnect_target_safe provider none account_id email xs a h = cc
  reconnect_target_safe provider (some id) account_id email xs a h =
      elim (Option-cases (find_account (has_id id) xs)) [
        | inl e ↦ ground (arith, e)
        | inr (b, e) ↦ ground (arith, e)
      ]

  -- An account that a finished sign-in updates is of the provider signed in to, and its email does
  -- not contradict the email of the sign-in.
  pub account_to_update_safe :
      (provider : Provider) (id account_id email : Option Text) (xs : List (Account F))
      (a : Account F)
      → account_to_update provider id account_id email xs ≡ some a
      → (provider_eq a.provider provider ≡ true) × (emails_conflict a.email email ≡ false)
  unfolding account_to_update
  account_to_update_safe provider id account_id email xs a h =
      elim (Option-cases (reconnect_target provider id account_id email xs)) [
        | inl e ↦ find_duplicate_safe provider account_id email xs a (ground (arith, e))
        | inr (b, e) ↦
            may_reconnect_safe provider account_id email a
              (reconnect_target_safe provider id account_id email xs a (ground (arith, e)))
      ]

  find_account_misses :
      (p : Account F → Bool) (xs : List (Account F))
      → find_account p xs ≡ none
      → All (λ a. p a ≡ false) xs
  unfolding find_account
  find_account_misses p [] h = tt
  find_account_misses p (x ∷ xs) h = elim (Bool-cases (p x)) [
    | inl e ↦ ground (arith, e)
    | inr n ↦ (n, find_account_misses p xs (ground (arith, n)))
  ]

  -- A sign-in for which no account is to be updated matches no account by identity.
  pub account_to_update_misses :
      (provider : Provider) (id account_id email : Option Text) (xs : List (Account F))
      → account_to_update provider id account_id email xs ≡ none
      → All (λ a. is_duplicate provider account_id email a ≡ false) xs
  unfolding account_to_update find_duplicate
  account_to_update_misses provider id account_id email xs h =
      elim (Option-cases (reconnect_target provider id account_id email xs)) [
        | inl e ↦
            find_account_misses (is_duplicate provider account_id email) xs (ground (arith, e))
        | inr (b, e) ↦ ground (arith, e)
      ]
