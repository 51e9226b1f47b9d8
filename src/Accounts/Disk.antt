-- ===== src/Accounts/Disk.antt =====
-- src-tauri/src/store/accounts.rs: the files of the accounts and of the deleted accounts. The bytes
-- of a file are a `Text`, and serde_json is a codec.
use ai_usage_tracker.Prelude.{
  ℕ, Bool, ◌&&◌, none, some, List, [], map, if◌then◌else◌, Text, text_eq, Result, ok, err, ◌>>=◌,
}
use ai_usage_tracker.Model.{Account}
use ai_usage_tracker.JsonFile.{Codec, Io}
use ai_usage_tracker.Windows.{classify_windows}
use ai_usage_tracker.Accounts.{StoreError, io, invalid, AccountFile, Directory, Access}

-- `map_err(|error| StoreError::Io(error.to_string()))`
abbrev pub to_io : Io → Result StoreError (Unit {0})
to_io (ok u) = ok u
to_io (err e) = err (io e)

module _ {F : Type 0} (json : Codec (AccountFile F) Text) (is_alphanumeric : ℕ → Bool)
    (to_lowercase : Text → Text) where
  unfoldable pub parse_accounts : Text → Result StoreError (List (Account F))
  parse_accounts raw = elim (json.from_str raw) [
    | err e ↦ err (invalid e)
    | ok parsed ↦ ok (map (classify_windows is_alphanumeric to_lowercase) parsed.accounts)
  ]

  unfoldable pub read_account_file : Io → Directory → Result StoreError (List (Account F))
  unfolding parse_accounts
  read_account_file read dir = elim dir.account_path [
    | some raw ↦ to_io read >>= λ _. parse_accounts raw
    | none ↦ elim dir.backup [ some raw ↦ to_io read >>= λ _. parse_accounts raw | none ↦ ok [] ]
  ]

module _ where
  -- The hard link and its rename, or else the copy, an atomic_write_private. Only the
  -- copy can fail.
  unfoldable pub refresh_account_backup :
      Access → Text → Directory → Directory × Result StoreError (Unit {0})
  refresh_account_backup access existing dir =
      if access.hard_link && access.rename
      then (record dir { backup = some existing }, ok tt)
      else elim access.copy.replaced [
        | ok _ ↦ (record dir { backup = some existing }, to_io access.copy.hardened)
        | err e ↦ (dir, err (io e))
      ]

  -- `atomic_write_private` of `accounts.json`. An error of its last call leaves the new contents.
  unfoldable pub write_payload :
      Access → Text → Directory → Directory × Result StoreError (Unit {0})
  write_payload access payload dir = elim access.write.replaced [
    | ok _ ↦ (record dir { account_path = some payload }, to_io access.write.hardened)
    | err e ↦ (dir, err (io e))
  ]

  -- The part of `write_account_file` that follows the serialization.
  unfoldable pub replace_account_file :
      Access → Text → Directory → Directory × Result StoreError (Unit {0})
  unfolding refresh_account_backup write_payload
  replace_account_file access payload dir = elim dir.account_path [
    | none ↦ write_payload access payload dir
    | some existing ↦ elim access.read [
      | err e ↦ (dir, err (io e))
      | ok _ ↦
          let (kept, result) = refresh_account_backup access existing dir in
          if text_eq existing payload
          then (dir, ok tt)
          else elim result [ ok _ ↦ write_payload access payload kept | err e ↦ (kept, err e) ]
    ]
  ]

module _ {F : Type 0} (json : Codec (AccountFile F) Text) where
  unfoldable pub write_account_file :
      Access → List (Account F) → Directory → Directory × Result StoreError (Unit {0})
  unfolding replace_account_file
  write_account_file access accounts dir =
      elim (json.to_vec_pretty (record { version = 2; accounts = accounts })) [
        | err e ↦ (dir, err (invalid e))
        | ok payload ↦ replace_account_file access payload dir
      ]
