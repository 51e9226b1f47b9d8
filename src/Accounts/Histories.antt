-- ===== src/Accounts/Histories.antt =====
-- src-tauri/src/store/accounts.rs: the accounts in memory and those on the disk, over a history of
-- calls.
use ai_usage_tracker.Prelude.{
  ℕ, ◌+◌, ◌≡◌, ◌<◌, refl, ◌∙◌, Bool, not, List, [], ◌∷◌, ◌++◌, map, length, keep, any_of, All,
  All-append, All-keep, Text, text_eq, Result, ok, err, inl, inr, Bool-cases, Option-cases,
  Result-cases, arith,
}
use ai_usage_tracker.Model.{Account}
use ai_usage_tracker.JsonFile.{Codec, Io, ReadsBack}
use ai_usage_tracker.Windows.{classify_windows}
use ai_usage_tracker.Accounts.Numbers.{listed}
use ai_usage_tracker.Accounts.Classified.{
  IsClassified, classify-IsClassified, upserted-IsClassified, update_account-All, drop_usage-All,
}
use ai_usage_tracker.Accounts.{StoreError, AccountFile, Directory, AccountStore, Access}
use ai_usage_tracker.Accounts.Find.{has_id}
use ai_usage_tracker.Accounts.Disk.{read_account_file}
use ai_usage_tracker.Accounts.Operations.{
  u64_size, touch, update_account, upserted, upsert, mutated, mutate, clear_cached_usage,
  count_usage, drop_usage, remove_account_metadata, remove_after_secret_result,
}
use ai_usage_tracker.Accounts.Tombstones.{
  TombstoneFile, read_tombstone_file, write_tombstone_file, update_tombstones, merge_tombstones,
  clear_tombstone, clear_tombstones, record_deletion, merge_change, clear_one_change,
  clear_all_change,
}
use ai_usage_tracker.Accounts.Store.{
  Call, upserts, mutates, removes, clears_usage, merges_deleted, clears_deleted, clears_all_deleted,
  with_dir, remove, step, run,
}
use ai_usage_tracker.Accounts.Sync.{IsInStep, Kept, same-Kept, commit-Kept}

module _ {F : Type 0} (json : Codec (AccountFile F) Text) (tombs : Codec TombstoneFile Text)
    (is_alphanumeric : ℕ → Bool) (to_lowercase : Text → Text) where
  -- The list of deleted ids has a file of its own.
  pub write_tombstone_file-read :
      (read write : Io) (ids : List Text) (dir : Directory)
      → read_account_file json is_alphanumeric to_lowercase read
          (write_tombstone_file tombs write ids dir)
        ≡ read_account_file json is_alphanumeric to_lowercase read dir
  unfolding write_tombstone_file read_account_file
  write_tombstone_file-read read write ids dir = ground arith

  update_tombstones-read :
      (io read write : Io) (change : List Text → List Text × Bool) (dir : Directory)
      → read_account_file json is_alphanumeric to_lowercase io
          (update_tombstones tombs read write change dir)
        ≡ read_account_file json is_alphanumeric to_lowercase io dir
  unfolding update_tombstones
  update_tombstones-read io read write change dir = ground (
    arith,
    write_tombstone_file-read io write (change (read_tombstone_file tombs read dir)).0 dir,
  )

  with_dir-Kept :
      (s : AccountStore F) (dir : Directory)
      → IsInStep json is_alphanumeric to_lowercase s
      → read_account_file json is_alphanumeric to_lowercase (ok tt) dir
        ≡ read_account_file json is_alphanumeric to_lowercase (ok tt) s.data_dir
      → Kept json is_alphanumeric to_lowercase s (with_dir s dir)
  with_dir-Kept s dir v e = record {
    synced = record {
      read_back = v.read_back;
      reads = e ∙ v.reads;
      same = v.same;
      classified = v.classified;
      given_out = v.given_out;
    };
    counted = omega arith;
  }

  merge_tombstones-Kept :
      (read write : Io) (ids : List Text) (s : AccountStore F)
      → IsInStep json is_alphanumeric to_lowercase s
      → Kept json is_alphanumeric to_lowercase s
          (with_dir s (merge_tombstones tombs read write ids s.data_dir))
  unfolding merge_tombstones
  merge_tombstones-Kept read write [] s v = with_dir-Kept s s.data_dir v refl
  merge_tombstones-Kept read write (id ∷ ids) s v =
      with_dir-Kept s _ v
        (update_tombstones-read (ok tt) read write (merge_change (id ∷ ids)) s.data_dir)

-- The repair of the permissions of the account file that follows its rename works.
abbrev pub IsHardened : Access → Type 0
IsHardened access = access.write.hardened ≡ ok tt

abbrev pub IsHardenedCall : {F : Type 0} → Call F → Type 0
IsHardenedCall (upserts access now account) = IsHardened access
IsHardenedCall (mutates access now id update) = IsHardened access
IsHardenedCall (removes access read write id secret) = IsHardened access
IsHardenedCall (clears_usage access) = IsHardened access
IsHardenedCall other = Unit

module _ {F : Type 0} (json : Codec (AccountFile F) Text) (tombs : Codec TombstoneFile Text)
    (is_alphanumeric : ℕ → Bool) (to_lowercase : Text → Text) (law : ReadsBack json listed) where
  upsert-Kept :
      (access : Access) (now : Text) (account : Account F) (s : AccountStore F)
      → IsInStep json is_alphanumeric to_lowercase s
      → s.version + 1 < u64_size
      → IsHardened access
      → Kept json is_alphanumeric to_lowercase s
          (upsert json is_alphanumeric to_lowercase access now account s).0
  unfolding upsert
  upsert-Kept access now account s v n hard =
      let incoming = classify_windows is_alphanumeric to_lowercase account in
      let fits = classify-IsClassified is_alphanumeric to_lowercase account in
      elim (Option-cases (update_account incoming.id (upserted now incoming) s.accounts)) [
        | inl e ↦
            rw (e, upsert)
              (commit-Kept json is_alphanumeric to_lowercase access (s.accounts ++ incoming ∷ [])
                incoming s v n hard law
                (All-append (IsClassified is_alphanumeric to_lowercase) s.accounts (incoming ∷ [])
                  v.classified (fits, tt)))
        | inr ((saved, next), e) ↦
            rw (e, upsert)
              (commit-Kept json is_alphanumeric to_lowercase access next saved s v n hard law (
                update_account-All is_alphanumeric to_lowercase incoming.id (upserted now incoming)
                  (λ a. upserted-IsClassified is_alphanumeric to_lowercase now incoming a fits)
                  s.accounts saved next e v.classified))
      ]

  mutated-IsClassified :
      (now : Text) (update : Account F → Account F) (a : Account F)
      → IsClassified is_alphanumeric to_lowercase
          (mutated is_alphanumeric to_lowercase now update a)
  unfolding classify_windows touch
  mutated-IsClassified now update a = classify-IsClassified is_alphanumeric to_lowercase (update a)

  mutate-Kept :
      (access : Access) (now id : Text) (update : Account F → Account F) (s : AccountStore F)
      → IsInStep json is_alphanumeric to_lowercase s
      → s.version + 1 < u64_size
      → IsHardened access
      → Kept json is_alphanumeric to_lowercase s
          (mutate json is_alphanumeric to_lowercase access now id update s).0
  unfolding mutate
  mutate-Kept access now id update s v n hard =
      let f = mutated is_alphanumeric to_lowercase now update in
      elim (Option-cases (update_account id f s.accounts)) [
        | inl e ↦ rw (e, mutate) (same-Kept json is_alphanumeric to_lowercase s v)
        | inr ((result, next), e) ↦
            rw (e, mutate)
              (commit-Kept json is_alphanumeric to_lowercase access next result s v n hard law (
                update_account-All is_alphanumeric to_lowercase id f
                  (λ a _. mutated-IsClassified now update a) s.accounts result next e v.classified))
      ]

  remove_account_metadata-Kept :
      (access : Access) (id : Text) (s : AccountStore F)
      → IsInStep json is_alphanumeric to_lowercase s
      → s.version + 1 < u64_size
      → IsHardened access
      → Kept json is_alphanumeric to_lowercase s (remove_account_metadata json access id s).0
  unfolding remove_account_metadata
  remove_account_metadata-Kept access id s v n hard =
      elim (Bool-cases (any_of (has_id id) s.accounts)) [
        | inr e ↦ rw (e, remove_account_metadata) (same-Kept json is_alphanumeric to_lowercase s v)
        | inl e ↦
            rw (e, remove_account_metadata)
              (commit-Kept json is_alphanumeric to_lowercase access
                (keep (λ a. not (text_eq a.id id)) s.accounts) tt s v n hard law
                (All-keep (IsClassified is_alphanumeric to_lowercase) (λ a. not (text_eq a.id id))
                  s.accounts v.classified))
      ]

  remove_after_secret_result-Kept :
      (access : Access) (id : Text) (secret : Result StoreError (Unit {0})) (s : AccountStore F)
      → IsInStep json is_alphanumeric to_lowercase s
      → s.version + 1 < u64_size
      → IsHardened access
      → Kept json is_alphanumeric to_lowercase s
          (remove_after_secret_result json access id secret s).0
  unfolding remove_after_secret_result
  remove_after_secret_result-Kept access id (err e) s v n hard =
      same-Kept json is_alphanumeric to_lowercase s v
  remove_after_secret_result-Kept access id (ok u) s v n hard =
      remove_account_metadata-Kept access id s v n hard

  remove-Kept :
      (access : Access) (read write : Io) (id : Text) (secret : Result StoreError (Unit {0}))
      (s : AccountStore F)
      → IsInStep json is_alphanumeric to_lowercase s
      → s.version + 1 < u64_size
      → IsHardened access
      → Kept json is_alphanumeric to_lowercase s (remove json tombs access read write id secret s).0
  unfolding remove record_deletion
  remove-Kept access read write id secret s v n hard =
      let (s', result) = remove_after_secret_result json access id secret s in
      let kept = remove_after_secret_result-Kept access id secret s v n hard in
      elim (Result-cases result) [
        | inr (x, e) ↦ rw (e, remove) kept
        | inl (u, e) ↦
            let after =
              merge_tombstones-Kept json tombs is_alphanumeric to_lowercase read write (id ∷ []) s'
                kept.synced in
            rw (e, remove) (record { synced = after.synced; counted = omega (arith, kept.counted) })
      ]

  step-Kept :
      (c : Call F) (s : AccountStore F)
      → IsInStep json is_alphanumeric to_lowercase s
      → s.version + 1 < u64_size
      → IsHardenedCall c
      → Kept json is_alphanumeric to_lowercase s (step json tombs is_alphanumeric to_lowercase c s)
  unfolding step clear_cached_usage clear_tombstone clear_tombstones
  step-Kept (upserts access now account) s v n hard = upsert-Kept access now account s v n hard
  step-Kept (mutates access now id update) s v n hard = mutate-Kept access now id update s v n hard
  step-Kept (removes access read write id secret) s v n hard =
      remove-Kept access read write id secret s v n hard
  step-Kept (clears_usage access) s v n hard =
      commit-Kept json is_alphanumeric to_lowercase access (map drop_usage s.accounts)
        (count_usage s.accounts) s v n hard law
        (drop_usage-All is_alphanumeric to_lowercase s.accounts)
  step-Kept (merges_deleted read write ids) s v n hard =
      merge_tombstones-Kept json tombs is_alphanumeric to_lowercase read write ids s v
  step-Kept (clears_deleted read write id) s v n hard =
      with_dir-Kept json tombs is_alphanumeric to_lowercase s _ v (
        update_tombstones-read json tombs is_alphanumeric to_lowercase (ok tt) read write
          (clear_one_change id) s.data_dir)
  step-Kept (clears_all_deleted read write) s v n hard =
      with_dir-Kept json tombs is_alphanumeric to_lowercase s _ v (
        update_tombstones-read json tombs is_alphanumeric to_lowercase (ok tt) read write
          clear_all_change s.data_dir)

  -- Over a history of upserts, mutations, removals and changes of the deleted-account list, with any
  -- of its reads and writes failing except the repair of the permissions that follows the rename of
  -- the account file, the next start reads from the account file what is in memory, but for the
  -- floating point numbers of the usage. The store begins in step with its file, there are fewer
  -- calls than a u64 counts, and JSON reads back what it writes but for those numbers.
  pub run-IsInStep :
      (calls : List (Call F)) (s : AccountStore F)
      → IsInStep json is_alphanumeric to_lowercase s
      → s.version + length calls < u64_size
      → All IsHardenedCall calls
      → IsInStep json is_alphanumeric to_lowercase
          (run json tombs is_alphanumeric to_lowercase calls s)
  unfolding run
  run-IsInStep [] s v n hard = v
  run-IsInStep (c ∷ calls) s v n hard =
      let kept = step-Kept c s v (omega arith) hard.0 in
      run-IsInStep calls (step json tombs is_alphanumeric to_lowercase c s) kept.synced
        (omega (arith, kept.counted)) hard.1
