-- ===== src/Tests/Saved.antt =====
-- The saved accounts.
use ai_usage_tracker.Prelude.{
  ℕ, zero, suc, ◌==◌, contains, text_eq, to_ascii_lower, ◌≡◌, refl, ◌&&◌, if◌then◌else◌, Bool-cases,
  inl, inr, Bool, true, false, not, Option, none, some, List, [], ◌∷◌, Text, codes, Result, ok, err,
  arith, map, Option-cases,
}
use ai_usage_tracker.Model.{
  Account, Provider, openai, provider_eq, UsageSnapshot, UsageFreshness, live,
}
use ai_usage_tracker.JsonFile.{Codec, ReadsBack}
use ai_usage_tracker.Limits.{is_empty}
use ai_usage_tracker.Accounts.{AccountFile, Directory, AccountStore, Access, io}
use ai_usage_tracker.Windows.{classify_windows, classify_usage}
use ai_usage_tracker.Accounts.Find.{
  emails_conflict, account_to_update, reconnect_target, find_account, find_duplicate, is_duplicate,
  may_reconnect, same_account_id, same_email, effective_account_id,
}
use ai_usage_tracker.Accounts.Disk.{
  read_account_file, write_account_file, replace_account_file, refresh_account_backup,
  write_payload,
}
use ai_usage_tracker.Accounts.Operations.{
  upsert, mutate, remove_after_secret_result, remove_account_metadata, commit, commit_snapshot,
  next_version, update_account, touch,
}
use ai_usage_tracker.Accounts.Tombstones.{
  TombstoneFile, read_tombstone_file, prune_tombstones, without_live, merge_tombstones, push_new,
  record_deletion, update_tombstones, merge_change,
}
use ai_usage_tracker.Accounts.Store.{Call, upserts, mutates, removes, load, run, step, remove}
use ai_usage_tracker.Accounts.Sync.{IsSynced, IsInStep, IsSynced-IsInStep}
use ai_usage_tracker.Accounts.Histories.{run-IsInStep}
use ai_usage_tracker.Accounts.Numbers.{without_numbers, usage_without_numbers, listed}
use ai_usage_tracker.Tests.Samples.{written}
use ai_usage_tracker.Accounts.Loading.{load-IsSynced}
use ai_usage_tracker.Accounts.Deletions.{merge_tombstones_room, record_deletion_full}
use ai_usage_tracker.Accounts.Laws.{account_to_update_safe}

abbrev snapshot : Text → UsageSnapshot ℕ
snapshot fetched_at = record {
  plan = none;
  email = none;
  windows = [];
  credits_usd = none;
  unlimited_credits = false;
  fetched_at = fetched_at;
  freshness = live;
  source = [];
}

-- An account without a name, a provider other than OpenAI or any detail but a balance.
abbrev plain_account : Text → Account ℕ
plain_account id = record {
  id = id;
  label = [];
  provider = openai;
  email = none;
  provider_account_id = none;
  chatgpt_account_id = none;
  plan = none;
  created_at = [];
  updated_at = [];
  last_usage = some (snapshot []);
  last_error = none;
  auth_required = false;
}

is_none : {A : Type 0} → Option A → Bool
is_none none = true
is_none (some a) = false

is_live : UsageFreshness → Bool
is_live live = true
is_live other = false

is_bare : Option (UsageSnapshot ℕ) → Bool
unfolding is_none is_live
is_bare none = false
is_bare (some u) =
    is_none u.plan
    && (is_none u.email
        && (is_empty u.windows
            && (not u.unlimited_credits
                && (is_empty u.fetched_at && (is_live u.freshness && is_empty u.source)))))

is_live_lem : (f : UsageFreshness) → is_live f ≡ true → live ≡ f
unfolding is_live
is_live_lem live h = refl
is_live_lem UsageFreshness.stale h = cc
is_live_lem UsageFreshness.unavailable h = cc
is_live_lem UsageFreshness.auth_required h = cc

is_bare_lem :
    (u : UsageSnapshot ℕ)
    → is_bare (some u) ≡ true
    → usage_without_numbers (snapshot []) ≡ usage_without_numbers u
unfolding is_bare is_none usage_without_numbers
is_bare_lem u h = ground (arith, h, is_live_lem u.freshness)

is_plain : Account ℕ → Bool
unfolding is_none provider_eq
is_plain a =
    is_empty a.label
    && (provider_eq a.provider openai
        && (is_none a.email
            && (is_none a.provider_account_id
                && (is_none a.chatgpt_account_id
                    && (is_none a.plan
                        && (is_empty a.created_at
                            && (is_empty a.updated_at
                                && (is_bare a.last_usage
                                    && (is_none a.last_error && not a.auth_required)))))))))

is_openai : (p : Provider) → provider_eq p openai ≡ true → p ≡ openai
unfolding provider_eq
is_openai openai h = refl
is_openai Provider.anthropic h = cc
is_openai Provider.antigravity h = cc
is_openai Provider.google_ai_studio h = cc
is_openai Provider.grok h = cc
is_openai Provider.opencode_go h = cc

is_plain_lem :
    (a : Account ℕ) → is_plain a ≡ true → without_numbers (plain_account a.id) ≡ without_numbers a
unfolding is_plain is_none is_bare without_numbers
is_plain_lem a h = elim (Option-cases a.last_usage) [
  | inl e ↦ absurd (ground (arith, e, h))
  | inr (u, e) ↦
      let bare : is_bare (some u) ≡ true = ground (arith, e, h) in
      rw e (ground (arith, h, is_openai a.provider, is_bare_lem u bare))
]

-- A serializer of such accounts, one at most, which leaves the balance out.
write_accounts : ℕ → List (Account ℕ) → Result Text Text
unfolding is_plain
write_accounts version [] = ok (version ∷ [])
write_accounts version (a ∷ []) = if is_plain a then ok (version ∷ 1 ∷ a.id) else err []
write_accounts version (a ∷ b ∷ as') = err []

read_accounts : Text → Result Text (AccountFile ℕ)
read_accounts [] = err []
read_accounts (version ∷ []) = ok (record { version = version; accounts = [] })
read_accounts (version ∷ x ∷ id) =
    ok (record { version = version; accounts = plain_account id ∷ [] })

read-write_accounts :
    (version : ℕ) (accounts : List (Account ℕ)) (p : Text)
    → write_accounts version accounts ≡ ok p
    → (w : AccountFile ℕ) × (read_accounts p ≡ ok w) × (listed w ≡ map without_numbers accounts)
unfolding write_accounts read_accounts
read-write_accounts version [] p h =
    (record { version = version; accounts = [] }, ground (arith, h), refl)
read-write_accounts version (a ∷ []) p h = elim (Bool-cases (is_plain a)) [
  | inl e ↦
      let same : version ∷ 1 ∷ a.id ≡ p = ground (arith, e, h) in
      (
        record { version = version; accounts = plain_account a.id ∷ [] },
        rw (← same) refl,
        rw (is_plain_lem a e) refl,
      )
  | inr n ↦ absurd (ground (arith, n, h))
]
read-write_accounts version (a ∷ b ∷ as') p h = absurd (ground (arith, h))

abbrev accounts_codec : Codec (AccountFile ℕ) Text
accounts_codec = record {
  to_vec_pretty = λ file. write_accounts file.version file.accounts;
  from_str = λ p. read_accounts p;
}

accounts_codec-ReadsBack : ReadsBack accounts_codec listed
accounts_codec-ReadsBack = record {
  from_str-to_vec_pretty = λ file p h. read-write_accounts file.version file.accounts p h;
}

-- A serializer of one deleted id at most, which also reads a list of five hundred.
write_ids : List Text → Result Text Text
write_ids [] = ok []
write_ids (a ∷ []) = ok (1 ∷ a)
write_ids (a ∷ b ∷ ids) = err []

abbrev many : ℕ → List Text
many zero = []
many (suc n) = codes "old" ∷ many n

read_ids : Text → Result Text TombstoneFile
read_ids [] = ok (record { deleted_account_ids = [] })
read_ids (c ∷ a) = ok (record { deleted_account_ids = if c == 2 then many 500 else a ∷ [] })

read-write_ids :
    (ids : List Text) (p : Text)
    → write_ids ids ≡ ok p
    → read_ids p ≡ ok (record { deleted_account_ids = ids })
unfolding write_ids read_ids
read-write_ids [] p h = ground (arith, h)
read-write_ids (a ∷ []) p h = let same : 1 ∷ a ≡ p = ground (arith, h) in rw (← same) refl
read-write_ids (a ∷ b ∷ ids) p h = absurd (ground (arith, h))

abbrev ids_codec : Codec TombstoneFile Text
ids_codec = record {
  to_vec_pretty = λ file. write_ids file.deleted_account_ids;
  from_str = λ p. read_ids p;
}

ids_codec-ReadsBack : ReadsBack ids_codec (λ file. file.deleted_account_ids)
ids_codec-ReadsBack = record {
  from_str-to_vec_pretty = λ file p h. (
    record { deleted_account_ids = file.deleted_account_ids },
    read-write_ids file.deleted_account_ids p h,
    refl,
  );
}

abbrev works : Access
works = record { read = ok tt; hard_link = true; rename = true; copy = written; write = written }

abbrev fails : Access
fails = record {
  read = ok tt;
  hard_link = false;
  rename = false;
  copy = written;
  write = record { replaced = err (codes "disk full"); hardened = ok tt };
}

abbrev empty_dir : Directory
empty_dir = record { account_path = none; backup = none; tombstone_path = none }

abbrev empty_store : AccountStore ℕ
empty_store = record { data_dir = empty_dir; accounts = []; version = 0; written_version = 0 }

abbrev keeps_all : ℕ → Bool
keeps_all c = true

abbrev same : Text → Text
same text = text

abbrev with_balance : ℕ → Account ℕ → Account ℕ
with_balance n a = record a { last_usage = some (record (snapshot []) { credits_usd = some n }) }

abbrev calls : List (Call ℕ)
calls =
    upserts works [] (with_balance 7 (plain_account (codes "a")))
    ∷ mutates fails [] (codes "a") (λ a. record a { auth_required = true })
    ∷ removes works (ok tt) (ok tt) (codes "a") (err (io (codes "locked")))
    ∷ removes works (ok tt) (ok tt) (codes "a") (ok tt)
    ∷ []

loaded :
    load accounts_codec ids_codec keeps_all same
      (ok tt)
      (ok tt)
      (ok tt)
      (ok tt)
      (ok tt)
      (ok tt)
      empty_dir
    ≡ ok empty_store
unfolding load read_account_file prune_tombstones read_tombstone_file without_live
loaded = refl

load-IsSynced_example : IsSynced accounts_codec keeps_all same empty_store
load-IsSynced_example =
    load-IsSynced accounts_codec ids_codec keeps_all same (ok tt) (ok tt) (ok tt) (ok tt) (ok tt)
      (ok tt) empty_dir empty_store loaded

run-IsInStep_example :
    IsInStep accounts_codec keeps_all same
      (run accounts_codec ids_codec keeps_all same calls empty_store)
run-IsInStep_example =
    run-IsInStep accounts_codec ids_codec keeps_all same accounts_codec-ReadsBack calls empty_store
      (IsSynced-IsInStep accounts_codec keeps_all same empty_store (
        load-IsSynced accounts_codec ids_codec keeps_all same (ok tt) (ok tt) (ok tt) (ok tt)
          (ok tt) (ok tt) empty_dir empty_store loaded))
      (omega arith) (refl, (refl, (refl, (refl, tt))))

-- The account is saved and then removed, and its id stays on the list of deleted ones.
ran : (run accounts_codec ids_codec keeps_all same calls empty_store).data_dir ≡ record {
  account_path = some (2 ∷ []);
  backup = some (2 ∷ 1 ∷ codes "a");
  tombstone_path = some (1 ∷ codes "a");
}
unfolding run step upsert mutate remove remove_after_secret_result remove_account_metadata commit
    commit_snapshot write_account_file replace_account_file refresh_account_backup write_payload
    next_version update_account write_accounts classify_windows text_eq touch record_deletion
    merge_tombstones update_tombstones merge_change contains write_ids is_bare classify_usage
ran = refl

merge_tombstones_room_example :
    contains
      (read_tombstone_file ids_codec
        (ok tt)
        (merge_tombstones ids_codec (ok tt) (ok tt) (codes "a" ∷ []) empty_dir))
      (codes "a")
    ≡ true
unfolding contains read_tombstone_file push_new write_ids text_eq
merge_tombstones_room_example =
    merge_tombstones_room ids_codec (codes "a" ∷ []) (1 ∷ codes "a") empty_dir (codes "a")
      ids_codec-ReadsBack (omega arith) refl

abbrev full_dir : Directory
full_dir = record { account_path = none; backup = none; tombstone_path = some (2 ∷ []) }

record_deletion_full_example :
    record_deletion ids_codec (ok tt) (ok tt) (codes "a") full_dir ≡ full_dir
unfolding read_tombstone_file read_ids contains text_eq
record_deletion_full_example =
    record_deletion_full ids_codec (ok tt) (ok tt) (codes "a") full_dir refl refl

abbrev found : Account ℕ
found = record (plain_account (codes "a")) { email = some (codes "Me@x.org") }

abbrev stranger : Account ℕ
stranger = record (plain_account (codes "b")) { email = some (codes "you@x.org") }

account_to_update_safe_example :
    (provider_eq found.provider openai ≡ true)
    × (emails_conflict found.email (some (codes "me@x.org")) ≡ false)
unfolding provider_eq emails_conflict to_ascii_lower may_reconnect account_to_update
    reconnect_target find_account find_duplicate is_duplicate same_account_id same_email
    effective_account_id text_eq
account_to_update_safe_example =
    account_to_update_safe openai (some (codes "b")) none (some (codes "me@x.org"))
      (stranger ∷ found ∷ []) found refl
