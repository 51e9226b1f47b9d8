-- ===== src/Accounts/Loading.antt =====
-- src-tauri/src/store/accounts.rs: a store that has just been loaded.
use ai_usage_tracker.Prelude.{
  ℕ, ◌≡◌, ◌∙◌, Bool, List, [], map, All, Text, ok, err, inl, inr, Option-cases, Result-cases, arith,
}
use ai_usage_tracker.Model.{Account}
use ai_usage_tracker.JsonFile.{Codec, Io}
use ai_usage_tracker.Windows.{classify_windows}
use ai_usage_tracker.Accounts.Classified.{IsClassified, map-classify-IsClassified}
use ai_usage_tracker.Accounts.{AccountFile, Directory, AccountStore}
use ai_usage_tracker.Accounts.Disk.{parse_accounts, read_account_file}
use ai_usage_tracker.Accounts.Tombstones.{
  TombstoneFile, read_tombstone_file, prune_tombstones, without_live,
}
use ai_usage_tracker.Accounts.Store.{load}
use ai_usage_tracker.Accounts.Sync.{IsSynced}
use ai_usage_tracker.Accounts.Histories.{write_tombstone_file-read}

module _ {F : Type 0} (json : Codec (AccountFile F) Text) (tombs : Codec TombstoneFile Text)
    (is_alphanumeric : ℕ → Bool) (to_lowercase : Text → Text) where
  prune_tombstones-read :
      (io read write : Io) (live : List Text) (dir : Directory)
      → read_account_file json is_alphanumeric to_lowercase io
          (prune_tombstones tombs read write live dir)
        ≡ read_account_file json is_alphanumeric to_lowercase io dir
  unfolding prune_tombstones
  prune_tombstones-read io read write live dir = ground (
    arith,
    write_tombstone_file-read json tombs is_alphanumeric to_lowercase io write
        (without_live live (read_tombstone_file tombs read dir)) dir,
  )

  parse-All :
      (raw : Text) (accounts : List (Account F))
      → parse_accounts json is_alphanumeric to_lowercase raw ≡ ok accounts
      → All (IsClassified is_alphanumeric to_lowercase) accounts
  unfolding parse_accounts
  parse-All raw accounts h = elim (Result-cases (json.from_str raw)) [
    | inl (file, e) ↦
        let same : map (classify_windows is_alphanumeric to_lowercase) file.accounts ≡ accounts =
          ground (arith, e, h) in
        rw (← same) (map-classify-IsClassified is_alphanumeric to_lowercase file.accounts)
    | inr (x, e) ↦ absurd (ground (arith, e, h))
  ]

  read-All :
      (read : Io) (dir : Directory) (accounts : List (Account F))
      → read_account_file json is_alphanumeric to_lowercase read dir ≡ ok accounts
      → All (IsClassified is_alphanumeric to_lowercase) accounts
        × (read_account_file json is_alphanumeric to_lowercase (ok tt) dir ≡ ok accounts)
  unfolding read_account_file
  read-All (err x) dir accounts h = elim (Option-cases dir.account_path) [
    | inl e ↦ elim (Option-cases dir.backup) [
      | inl f ↦
          let same : [] ≡ accounts = ground (arith, e, f, h) in
          rw (← same) (tt, ground (arith, e, f))
      | inr (raw, f) ↦ absurd (ground (arith, e, f, h))
    ]
    | inr (raw, e) ↦ absurd (ground (arith, e, h))
  ]
  read-All (ok tt) dir accounts h = elim (Option-cases dir.account_path) [
    | inl e ↦ elim (Option-cases dir.backup) [
      | inl f ↦
          let same : [] ≡ accounts = ground (arith, e, f, h) in
          rw (← same) (tt, ground (arith, e, f))
      | inr (raw, f) ↦ (parse-All raw accounts (ground (arith, e, f, h)), h)
    ]
    | inr (raw, e) ↦ (parse-All raw accounts (ground (arith, e, h)), h)
  ]

  -- A store that loads is in step with its file.
  pub load-IsSynced :
      (dir_private read file_private backup_private tomb_read tomb_write : Io) (dir : Directory)
      (s : AccountStore F)
      → load json tombs is_alphanumeric to_lowercase dir_private read file_private backup_private
          tomb_read tomb_write dir
        ≡ ok s
      → IsSynced json is_alphanumeric to_lowercase s
  unfolding load prune_tombstones
  load-IsSynced (err x) read fp bp tr tw dir s h = absurd (ground (arith, h))
  load-IsSynced (ok _) read (err x) bp tr tw dir s h = absurd (ground (arith, h))
  load-IsSynced (ok _) read (ok _) (err x) tr tw dir s h = absurd (ground (arith, h))
  load-IsSynced (ok _) read (ok _) (ok _) tr tw dir s h =
      elim (Result-cases (read_account_file json is_alphanumeric to_lowercase read dir)) [
        | inr (x, e) ↦ absurd (ground (arith, e, h))
        | inl (accounts, e) ↦
            let (each, again) = read-All read dir accounts e in
            let loaded : AccountStore F = record {
              data_dir = prune_tombstones tombs tr tw (map (λ a. a.id) accounts) dir;
              accounts = accounts;
              version = 0;
              written_version = 0;
            } in
            let same : loaded ≡ s = ground (arith, e, h) in
            rw (← same) (record {
              reads_back =
                  prune_tombstones-read (ok tt) tr tw (map (λ a. a.id) accounts) dir ∙ again;
              classified = each;
              given_out = omega arith;
            })
      ]
