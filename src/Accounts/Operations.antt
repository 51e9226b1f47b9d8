-- ===== src/Accounts/Operations.antt =====
-- src-tauri/src/store/accounts.rs: the operations that change the saved accounts. `now` is the clock
-- as `touch` reads it, `update` the closure that `mutate` is given.
use ai_usage_tracker.Prelude.{
  ℕ, ◌+◌, ◌%◌, Bool, not, Option, none, some, List, [], ◌∷◌, ◌++◌, map, leb, if◌then◌else◌, keep,
  any_of, Text, codes, text_eq, text_leb, Result, ok, err,
}
use ai_usage_tracker.Model.{Account}
use ai_usage_tracker.JsonFile.{Codec}
use ai_usage_tracker.Windows.{classify_windows}
use ai_usage_tracker.Accounts.{
  StoreError, credential, io, invalid, AccountFile, AccountStore, Access,
}
use ai_usage_tracker.Accounts.Merge.{merge_account}
use ai_usage_tracker.Accounts.Find.{find_account, has_id}
use ai_usage_tracker.Accounts.Disk.{write_account_file}

-- The number of values of a `u64`.
abbrev pub u64_size : ℕ
u64_size = 18446744073709551616

-- `StoreError::to_string`
unfoldable pub message : StoreError → Text
message (credential e) = codes "credential store error: " ++ e
message (io e) = codes "metadata store error: " ++ e
message (invalid e) = codes "invalid metadata: " ++ e

module _ {F : Type 0} where
  -- `Account::touch`
  unfoldable pub touch : Text → Account F → Account F
  touch now account = record account { updated_at = now }

  -- The change of the first account with this id, if there is one.
  unfoldable pub update_account :
      Text → (Account F → Account F) → List (Account F) → Option (Account F × List (Account F))
  update_account id f [] = none
  update_account id f (a ∷ as') =
      if text_eq a.id id
      then some (f a, f a ∷ as')
      else elim (update_account id f as') [ none ↦ none | some (b, bs) ↦ some (b, a ∷ bs) ]

  unfoldable pub next_version : AccountStore F → ℕ
  next_version s = (s.version + 1) % u64_size

  -- `account.last_usage.take()`
  abbrev pub drop_usage : Account F → Account F
  drop_usage account = record account { last_usage = none }

  unfoldable pub count_usage : List (Account F) → ℕ
  count_usage [] = 0
  count_usage (a ∷ as') = elim a.last_usage [
    | some _ ↦ 1 + count_usage as'
    | none ↦ count_usage as'
  ]

  -- `sort_by_key`, which is stable, by the label in lower case.
  unfoldable pub insert_by_label : (Text → Text) → Account F → List (Account F) → List (Account F)
  insert_by_label to_lowercase a [] = a ∷ []
  insert_by_label to_lowercase a (x ∷ xs) =
      if text_leb (to_lowercase a.label) (to_lowercase x.label)
      then a ∷ x ∷ xs
      else x ∷ insert_by_label to_lowercase a xs

  unfoldable pub list_accounts : (Text → Text) → List (Account F) → List (Account F)
  unfolding insert_by_label
  list_accounts to_lowercase [] = []
  list_accounts to_lowercase (a ∷ as') =
      insert_by_label to_lowercase a (list_accounts to_lowercase as')

  -- What `upsert` and `mutate` make of an account that is here.
  abbrev pub upserted : Text → Account F → Account F → Account F
  upserted now incoming existing = touch now (merge_account existing incoming)

  abbrev pub mutated :
      (ℕ → Bool) → (Text → Text) → Text → (Account F → Account F) → Account F → Account F
  mutated is_alphanumeric to_lowercase now update account =
      touch now (classify_windows is_alphanumeric to_lowercase (update account))

module _ {F : Type 0} (json : Codec (AccountFile F) Text) where
  unfoldable pub commit_snapshot :
      Access → List (Account F) → ℕ → AccountStore F → AccountStore F × Result StoreError (Unit {0})
  commit_snapshot access snapshot version s =
      let (dir, result) = write_account_file json access snapshot s.data_dir in
      if leb version s.written_version then (s, ok tt) else elim result [
        | ok _ ↦ (record s { data_dir = dir; written_version = version }, ok tt)
        | err e ↦ (record s { data_dir = dir }, err e)
      ]

  -- The end of each operation: a version, the write, and the new list once it is written.
  unfoldable pub commit :
      {A : Type 0}
      → Access
      → List (Account F)
      → A
      → AccountStore F
      → AccountStore F × Result StoreError A
  commit access next a s =
      let version = next_version s in
      let (s', result) = commit_snapshot access next version (record s { version = version }) in
      elim result [ ok _ ↦ (record s' { accounts = next }, ok a) | err e ↦ (s', err e) ]

  unfoldable pub clear_cached_usage : Access → AccountStore F → AccountStore F × Result StoreError ℕ
  unfolding count_usage
  clear_cached_usage access s = commit access (map drop_usage s.accounts) (count_usage s.accounts) s

  unfoldable pub remove_account_metadata :
      Access → Text → AccountStore F → AccountStore F × Result StoreError (Unit {0})
  remove_account_metadata access id s =
      if not (any_of (has_id id) s.accounts)
      then (s, ok tt)
      else commit access (keep (λ a. not (text_eq a.id id)) s.accounts) tt s

  -- `secret` is how the deletion of the credentials ended.
  unfoldable pub remove_after_secret_result :
      Access
      → Text
      → Result StoreError (Unit {0})
      → AccountStore F
      → AccountStore F × Result StoreError (Unit {0})
  unfolding message
  remove_after_secret_result access id (err e) s = (
    s,
    err (
        credential (
          codes "Unable to delete saved credentials; the account was not removed ("
          ++ message e
          ++ codes ")")),
  )
  remove_after_secret_result access id (ok _) s = remove_account_metadata access id s

  module _ (is_alphanumeric : ℕ → Bool) (to_lowercase : Text → Text) where
    unfoldable pub upsert :
        Access → Text → Account F → AccountStore F → AccountStore F × Result StoreError (Account F)
    upsert access now account s =
        let incoming = classify_windows is_alphanumeric to_lowercase account in
        elim (update_account incoming.id (upserted now incoming) s.accounts) [
          | none ↦ commit access (s.accounts ++ incoming ∷ []) incoming s
          | some (saved, next) ↦ commit access next saved s
        ]

    unfoldable pub mutate :
        Access
        → Text
        → Text
        → (Account F → Account F)
        → AccountStore F
        → AccountStore F × Result StoreError (Account F)
    mutate access now id update s =
        elim (update_account id (mutated is_alphanumeric to_lowercase now update) s.accounts) [
          | none ↦ (s, err (invalid (codes "account not found")))
          | some (result, next) ↦ commit access next result s
        ]

  -- `get`
  abbrev pub get : Text → AccountStore F → Option (Account F)
  get id s = find_account (has_id id) s.accounts
