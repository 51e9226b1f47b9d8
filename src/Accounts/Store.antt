-- ===== src/Accounts/Store.antt =====
-- src-tauri/src/store/accounts.rs: `load` and `remove`, which touch the accounts and the deleted
-- ids, and the histories of the store.
use ai_usage_tracker.Prelude.{ℕ, Bool, List, [], ◌∷◌, map, Text, Result, ok, err, ◌>>=◌}
use ai_usage_tracker.Model.{Account}
use ai_usage_tracker.JsonFile.{Codec, Io}
use ai_usage_tracker.Accounts.{StoreError, AccountFile, Directory, AccountStore, Access}
use ai_usage_tracker.Accounts.Disk.{to_io, read_account_file}
use ai_usage_tracker.Accounts.Operations.{
  upsert, mutate, clear_cached_usage, remove_after_secret_result,
}
use ai_usage_tracker.Accounts.Tombstones.{
  TombstoneFile, prune_tombstones, merge_tombstones, clear_tombstone, clear_tombstones,
  record_deletion,
}

abbrev pub with_dir : {F : Type 0} → AccountStore F → Directory → AccountStore F
with_dir s dir = record s { data_dir = dir }

-- The calls that a history is made of, each with what its environment does.
pub data Call (F : Type 0) : Type 0 where
  upserts : Access → Text → Account F → Call F
  mutates : Access → Text → Text → (Account F → Account F) → Call F
  removes : Access → Io → Io → Text → Result StoreError (Unit {0}) → Call F
  clears_usage : Access → Call F
  merges_deleted : Io → Io → List Text → Call F
  clears_deleted : Io → Io → Text → Call F
  clears_all_deleted : Io → Io → Call F

module _ {F : Type 0} (json : Codec (AccountFile F) Text) (tombs : Codec TombstoneFile Text) where
  unfoldable pub remove :
      Access
      → Io
      → Io
      → Text
      → Result StoreError (Unit {0})
      → AccountStore F
      → AccountStore F × Result StoreError (Unit {0})
  remove access read write id secret s =
      let (s', result) = remove_after_secret_result json access id secret s in
      elim result [
        | ok _ ↦ (with_dir s' (record_deletion tombs read write id s'.data_dir), ok tt)
        | err e ↦ (s', err e)
      ]

  module _ (is_alphanumeric : ℕ → Bool) (to_lowercase : Text → Text) where
    -- The results of the two repairs of permissions follow that of the read.
    unfoldable pub load :
        Io → Io → Io → Io → Io → Io → Directory → Result StoreError (AccountStore F)
    load dir_private read file_private backup_private tomb_read tomb_write dir =
        to_io dir_private >>= λ _.
        read_account_file json is_alphanumeric to_lowercase read dir >>= λ accounts.
        to_io file_private >>= λ _. to_io backup_private >>= λ _. ok (record {
          data_dir = prune_tombstones tombs tomb_read tomb_write (map (λ a. a.id) accounts) dir;
          accounts = accounts;
          version = 0;
          written_version = 0;
        })

    unfoldable pub step : Call F → AccountStore F → AccountStore F
    unfolding remove
    step (upserts access now account) s =
        (upsert json is_alphanumeric to_lowercase access now account s).0
    step (mutates access now id update) s =
        (mutate json is_alphanumeric to_lowercase access now id update s).0
    step (removes access read write id secret) s = (remove access read write id secret s).0
    step (clears_usage access) s = (clear_cached_usage json access s).0
    step (merges_deleted read write ids) s =
        with_dir s (merge_tombstones tombs read write ids s.data_dir)
    step (clears_deleted read write id) s =
        with_dir s (clear_tombstone tombs read write id s.data_dir)
    step (clears_all_deleted read write) s =
        with_dir s (clear_tombstones tombs read write s.data_dir)

    unfoldable pub run : List (Call F) → AccountStore F → AccountStore F
    run [] s = s
    run (c ∷ cs) s = run cs (step c s)
