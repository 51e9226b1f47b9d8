-- ===== src/Accounts/Find.antt =====
-- src-tauri/src/store/accounts.rs: `get`, `find_duplicate` and `account_to_update`, and
-- `Account::effective_account_id` of src-tauri/src/model.rs.
use ai_usage_tracker.Prelude.{
  Bool, false, not, ◌&&◌, ◌||◌, Option, none, some, List, [], ◌∷◌, if◌then◌else◌, Text, text_eq,
  eq_ignore_ascii_case,
}
use ai_usage_tracker.Prelude.Split.{is_nonempty}
use ai_usage_tracker.Model.{Account, Provider, provider_eq}

-- Two emails, both known and not blank, that differ.
unfoldable pub emails_conflict : Option Text → Option Text → Bool
emails_conflict none email = false
emails_conflict (some a) none = false
emails_conflict (some a) (some b) = is_nonempty a && is_nonempty b && not (eq_ignore_ascii_case a b)

-- `account_id.filter(not empty).is_some_and(|value| effective_account_id() == Some(value))`
unfoldable pub same_account_id : Option Text → Option Text → Bool
same_account_id none known = false
same_account_id (some value) none = false
same_account_id (some value) (some known) = is_nonempty value && text_eq known value

unfoldable pub same_email : Option Text → Option Text → Bool
same_email none known = false
same_email (some value) none = false
same_email (some value) (some known) = is_nonempty value && eq_ignore_ascii_case known value

-- `matches!((known, signed_in), (Some(a), Some(b)) if a != b)`
unfoldable pub ids_conflict : Option Text → Option Text → Bool
ids_conflict none signed_in = false
ids_conflict (some a) none = false
ids_conflict (some a) (some b) = is_nonempty b && not (text_eq a b)

unfoldable pub email_known : Option Text → Option Text → Bool
email_known none email = false
email_known (some a) none = false
email_known (some a) (some b) = is_nonempty a && is_nonempty b

module _ {F : Type 0} where
  -- `iter().find(..)`
  unfoldable pub find_account : (Account F → Bool) → List (Account F) → Option (Account F)
  find_account p [] = none
  find_account p (a ∷ as') = if p a then some a else find_account p as'

  abbrev pub has_id : Text → Account F → Bool
  has_id id account = text_eq account.id id

  unfoldable pub effective_account_id : Account F → Option Text
  effective_account_id account = elim account.provider_account_id [
    | some id ↦ some id
    | none ↦ account.chatgpt_account_id
  ]

  unfoldable pub is_duplicate : Provider → Option Text → Option Text → Account F → Bool
  unfolding emails_conflict same_account_id same_email
  is_duplicate provider account_id email account =
      if not (provider_eq account.provider provider)
      then false
      else if emails_conflict account.email email
      then false
      else same_account_id account_id (effective_account_id account)
        || same_email email account.email

  unfoldable pub find_duplicate :
      Provider → Option Text → Option Text → List (Account F) → Option (Account F)
  unfolding is_duplicate
  find_duplicate provider account_id email accounts =
      find_account (is_duplicate provider account_id email) accounts

  -- The two filters on the account that the user asked to reconnect.
  unfoldable pub may_reconnect : Provider → Option Text → Option Text → Account F → Bool
  unfolding emails_conflict ids_conflict email_known
  may_reconnect provider account_id email account =
      provider_eq account.provider provider
      && (not (emails_conflict account.email email)
          && (email_known account.email email
              || not (ids_conflict (effective_account_id account) account_id)))

  unfoldable pub reconnect_target :
      Provider → Option Text → Option Text → Option Text → List (Account F) → Option (Account F)
  unfolding may_reconnect
  reconnect_target provider none account_id email accounts = none
  reconnect_target provider (some id) account_id email accounts =
      elim (find_account (has_id id) accounts) [
        | none ↦ none
        | some account ↦
            if may_reconnect provider account_id email account then some account else none
      ]

  unfoldable pub account_to_update :
      Provider → Option Text → Option Text → Option Text → List (Account F) → Option (Account F)
  account_to_update provider reconnect_account_id account_id email accounts =
      elim (reconnect_target provider reconnect_account_id account_id email accounts) [
        | some account ↦ some account
        | none ↦ find_duplicate provider account_id email accounts
      ]
