-- ===== src/Accounts.antt =====
-- src-tauri/src/store/accounts.rs: the saved accounts. The store's state is here with what it keeps
-- on disk; the merge of two accounts is in Merge, the search for an account in Find, the operations
-- in Operations. Each lock is held for a whole call, so calls run one after another.
pub mod Merge
pub mod Find
pub mod Disk
pub mod Operations
pub mod Tombstones
pub mod Store
pub mod Deletions
pub mod Classified
pub mod Numbers
pub mod Sync
pub mod Histories
pub mod Loading
pub mod Laws
use ai_usage_tracker.Prelude.{ℕ, Bool, Option, List, Text, Result}
use ai_usage_tracker.Model.{Account}
use ai_usage_tracker.JsonFile.{Write}

pub data StoreError : Type 0 where
  credential io invalid : Text → StoreError

pub record AccountFile (F : Type 0) : Type 0 where
  pub version : ℕ
  pub accounts : List (Account F)

-- The files of the data directory, each with its bytes if it is there: `accounts.json`, its backup
-- and `deleted-accounts.json`.
pub record Directory : Type 0 where
  pub account_path : Option Text
  pub backup : Option Text
  pub tombstone_path : Option Text

pub record AccountStore (F : Type 0) : Type 0 where
  pub data_dir : Directory
  pub accounts : List (Account F)
  -- An `AtomicU64`.
  pub version : ℕ
  pub written_version : ℕ

-- How the accesses of one call to the disk end: the read of the file, the hard link and the rename
-- of the backup, the copy where there is no link, and the write.
pub record Access : Type 0 where
  pub read : Result Text (Unit {0})
  pub hard_link : Bool
  pub rename : Bool
  pub copy : Write
  pub write : Write
