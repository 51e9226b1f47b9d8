-- ===== src/Accounts/Sync.antt =====
-- src-tauri/src/store/accounts.rs: the accounts in memory and those that the next start reads
-- from the disk, after one write.
use ai_usage_tracker.Prelude.{
  ℕ, ◌+◌, ◌≡◌, ◌≤◌, ◌<◌, ◌∙◌, leb, Bool, false, some, List, All, Text, Result, eq_of_text_eq, ok,
  err, inl, inr, refl, map, Option-cases, Result-cases, arith,
}
use ai_usage_tracker.Model.{Account}
use ai_usage_tracker.JsonFile.{Codec, ReadsBack}
use ai_usage_tracker.Accounts.Classified.{IsClassified}
use ai_usage_tracker.Accounts.Numbers.{without_numbers, listed, classify-listed}
use ai_usage_tracker.Windows.{classify_windows}
use ai_usage_tracker.Accounts.{StoreError, AccountFile, Directory, AccountStore, Access}
use ai_usage_tracker.Accounts.Disk.{
  parse_accounts, read_account_file, refresh_account_backup, write_payload, replace_account_file,
  write_account_file,
}
use ai_usage_tracker.Accounts.Operations.{u64_size, next_version, commit_snapshot, commit}

module _ {F : Type 0} (json : Codec (AccountFile F) Text) (is_alphanumeric : ℕ → Bool)
    (to_lowercase : Text → Text) where
  -- The file reads back as what is in memory, the kinds of all windows are worked out, and no
  -- version is written that was not given out.
  pub record IsSynced (s : AccountStore F) : Type 0 where
    pub reads_back :
        read_account_file json is_alphanumeric to_lowercase (ok tt) s.data_dir ≡ ok s.accounts
    pub classified : All (IsClassified is_alphanumeric to_lowercase) s.accounts
    pub given_out : s.written_version ≤ s.version

  -- The file reads back as what is in memory but for the floating point numbers, the kinds of all
  -- windows are worked out, and no version is written that was not given out.
  pub record IsInStep (s : AccountStore F) : Type 0 where
    pub read_back : List (Account F)
    pub reads :
        read_account_file json is_alphanumeric to_lowercase (ok tt) s.data_dir ≡ ok read_back
    pub same : map without_numbers read_back ≡ map without_numbers s.accounts
    pub classified : All (IsClassified is_alphanumeric to_lowercase) s.accounts
    pub given_out : s.written_version ≤ s.version

  pub IsSynced-IsInStep : (s : AccountStore F) → IsSynced s → IsInStep s
  IsSynced-IsInStep s v = record {
    read_back = s.accounts;
    reads = v.reads_back;
    same = refl;
    classified = v.classified;
    given_out = v.given_out;
  }

  -- One call keeps the store in step with its file and gives out one version at most.
  pub record Kept (s s' : AccountStore F) : Type 0 where
    pub synced : IsInStep s'
    pub counted : s'.version ≤ s.version + 1

  -- What `read_account_file` gives, up to numbers.
  abbrev ReadsAs : Result StoreError (List (Account F)) → List (Account F) → Type 0
  ReadsAs r accounts =
      (as' : List (Account F)) × (r ≡ ok as')
      × (map without_numbers as' ≡ map without_numbers accounts)

  parse_written :
      (accounts : List (Account F)) (payload : Text)
      → ReadsBack json listed
      → All (IsClassified is_alphanumeric to_lowercase) accounts
      → json.to_vec_pretty (record { version = 2; accounts = accounts }) ≡ ok payload
      → ReadsAs (parse_accounts json is_alphanumeric to_lowercase payload) accounts
  unfolding parse_accounts
  parse_written accounts payload law h e =
      let file : AccountFile F = record { version = 2; accounts = accounts } in
      let (w, parsed, same) = law.from_str-to_vec_pretty file payload e in
      (
        map (classify_windows is_alphanumeric to_lowercase) w.accounts,
        rw (parse_accounts, parsed) refl,
        classify-listed is_alphanumeric to_lowercase w.accounts accounts h same,
      )

  -- A write that succeeds leaves the payload in the file; one that fails leaves what is read.
  replace_ok :
      (access : Access) (payload : Text) (dir : Directory)
      → (replace_account_file access payload dir).1 ≡ ok tt
      → (replace_account_file access payload dir).0.account_path ≡ some payload
  unfolding replace_account_file refresh_account_backup write_payload
  replace_ok access payload dir h = elim (Option-cases dir.account_path) [
    | inl e ↦ ground (arith, e)
    | inr (old, e) ↦ ground (arith, e, eq_of_text_eq old payload)
  ]

  replace_err :
      (access : Access) (payload : Text) (dir : Directory) (e : StoreError)
      → access.write.hardened ≡ ok tt
      → (replace_account_file access payload dir).1 ≡ err e
      → read_account_file json is_alphanumeric to_lowercase
          (ok tt)
          (replace_account_file access payload dir).0
        ≡ read_account_file json is_alphanumeric to_lowercase (ok tt) dir
  unfolding replace_account_file refresh_account_backup write_payload read_account_file
  replace_err access payload dir e hard h = elim (Option-cases dir.account_path) [
    | inl n ↦ ground (arith, n, hard)
    | inr (old, s) ↦ ground (arith, s, hard)
  ]

  write_ok :
      (access : Access) (accounts : List (Account F)) (dir : Directory)
      → ReadsBack json listed
      → All (IsClassified is_alphanumeric to_lowercase) accounts
      → (write_account_file json access accounts dir).1 ≡ ok tt
      → ReadsAs
          (read_account_file json is_alphanumeric to_lowercase
            (ok tt)
            (write_account_file json access accounts dir).0)
          accounts
  unfolding write_account_file read_account_file
  write_ok access accounts dir law h e =
      elim (Result-cases (json.to_vec_pretty (record { version = 2; accounts = accounts }))) [
        | inl (payload, p) ↦
            let (as', parsed, same) = parse_written accounts payload law h p in
            let stored = replace_ok access payload dir (rw (write_account_file, p) at e) in
            (as', rw (write_account_file, p, read_account_file, stored, parsed) refl, same)
        | inr (x, p) ↦ absurd (ground (arith, p, e))
      ]

  write_err :
      (access : Access) (accounts : List (Account F)) (dir : Directory) (e : StoreError)
      → access.write.hardened ≡ ok tt
      → (write_account_file json access accounts dir).1 ≡ err e
      → read_account_file json is_alphanumeric to_lowercase
          (ok tt)
          (write_account_file json access accounts dir).0
        ≡ read_account_file json is_alphanumeric to_lowercase (ok tt) dir
  unfolding write_account_file
  write_err access accounts dir e hard h =
      elim (Result-cases (json.to_vec_pretty (record { version = 2; accounts = accounts }))) [
        | inl (payload, p) ↦ ground (arith, p, replace_err access payload dir e hard)
        | inr (x, p) ↦ ground (arith, p)
      ]

  pub same-Kept : (s : AccountStore F) → IsInStep s → Kept s s
  same-Kept s v = record { synced = v; counted = omega arith }

  next_version_lem :
      (s : AccountStore F) → s.version + 1 < u64_size → next_version s ≡ s.version + 1
  unfolding next_version
  next_version_lem s n = omega arith

  is_later :
      (s : AccountStore F)
      → IsInStep s
      → s.version + 1 < u64_size
      → leb (next_version s) s.written_version ≡ false
  is_later s v n = ground (arith, next_version_lem s n, v.given_out)

  commit_ok :
      {A : Type 0} (access : Access) (next : List (Account F)) (a : A) (s : AccountStore F)
      → leb (next_version s) s.written_version ≡ false
      → (write_account_file json access next s.data_dir).1 ≡ ok tt
      → (commit json access next a s).0 ≡ record {
        data_dir = (write_account_file json access next s.data_dir).0;
        accounts = next;
        version = next_version s;
        written_version = next_version s;
      }
  unfolding commit commit_snapshot
  commit_ok access next a s later e = ground (arith, later, e)

  commit_err :
      {A : Type 0} (access : Access) (next : List (Account F)) (a : A) (s : AccountStore F)
      (x : StoreError)
      → leb (next_version s) s.written_version ≡ false
      → (write_account_file json access next s.data_dir).1 ≡ err x
      → (commit json access next a s).0 ≡ record {
        data_dir = (write_account_file json access next s.data_dir).0;
        accounts = s.accounts;
        version = next_version s;
        written_version = s.written_version;
      }
  unfolding commit commit_snapshot
  commit_err access next a s x later e = ground (arith, later, e)

  pub commit-Kept :
      {A : Type 0} (access : Access) (next : List (Account F)) (a : A) (s : AccountStore F)
      → IsInStep s
      → s.version + 1 < u64_size
      → access.write.hardened ≡ ok tt
      → ReadsBack json listed
      → All (IsClassified is_alphanumeric to_lowercase) next
      → Kept s (commit json access next a s).0
  commit-Kept access next a s v n hard law h =
      elim (Result-cases (write_account_file json access next s.data_dir).1) [
        | inl (tt, e) ↦
            let (as', reads, same) = write_ok access next s.data_dir law h e in
            rw (commit_ok access next a s (is_later s v n) e) (record {
              synced = record {
                read_back = as';
                reads = reads;
                same = same;
                classified = h;
                given_out = omega arith;
              };
              counted = omega (arith, next_version_lem s n);
            })
        | inr (x, e) ↦ rw (commit_err access next a s x (is_later s v n) e) (record {
          synced = record {
            read_back = v.read_back;
            reads = write_err access next s.data_dir x hard e ∙ v.reads;
            same = v.same;
            classified = v.classified;
            given_out = omega (arith, v.given_out, next_version_lem s n);
          };
          counted = omega (arith, next_version_lem s n);
        })
      ]
