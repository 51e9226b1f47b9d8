-- ===== src/Buckets.antt =====
-- src-tauri/src/store/buckets.rs: named groups of accounts. One call runs at a time; `now` and
-- `uuid` are what the clock and the random generator return, `io` how the write to the disk ends.
pub mod AccountIds
pub mod Bounds
pub mod Laws
pub mod Imports
use ai_usage_tracker.Prelude.{
  ℕ, ◌≡◌, refl, Bool, true, false, not, ◌&&◌, ◌||◌, ◌==◌, leb, ltb, if◌then◌else◌, Option, none,
  some, List, [], ◌∷◌, ◌++◌, map, Text, codes, text_eq, trim, eq_ignore_ascii_case, contains,
  without, length, keep, any_of, Result, ok, err,
}
use ai_usage_tracker.Model.{Provider, provider_eq}
use ai_usage_tracker.Limits.{
  max_buckets, max_bucket_name_chars, max_accounts, max_timestamp_chars, clamp_chars, is_empty,
  is_valid_account_id,
}
use ai_usage_tracker.JsonFile.{Codec, Io, Write, JsonFile, open_file, save_file}

pub record AccountBucket : Type 0 where
  pub id : Text
  pub name : Text
  pub provider : Option Provider
  pub account_ids : List Text
  pub created_at : Text
  pub updated_at : Text

pub record BucketsFile : Type 0 where
  pub version : ℕ
  pub buckets : List AccountBucket

pub record BucketStore (P : Type 0) : Type 0 where
  pub file : JsonFile P
  pub buckets : List AccountBucket

pub data BucketError : Type 0 where
  -- "Bucket group name cannot be empty." and "Bucket group name must be 80 characters or fewer."
  empty_name long_name : BucketError
  -- "A bucket group can hold at most 64 accounts."
  too_many_accounts : BucketError
  -- "Bucket group not found." and "You can have at most 64 bucket groups."
  not_found too_many_buckets : BucketError
  file_error : Text → BucketError

-- The loop of `normalize_account_ids`, from the ids already kept.
unfoldable pub normalize_from : List Text → List Text → List Text
normalize_from result [] = result
normalize_from result (id ∷ ids) =
    let rest =
      normalize_from
        (if is_valid_account_id id && not (contains result id) then result ++ id ∷ [] else result)
        ids in
    if leb max_accounts (length result) then result else rest

unfoldable pub normalize_account_ids : List Text → List Text
normalize_account_ids ids = normalize_from [] ids

-- `position` of the first bucket that passes the test, and the change of that bucket.
unfoldable pub update_first :
    (AccountBucket → Bool)
    → (AccountBucket → AccountBucket)
    → List AccountBucket
    → Option (AccountBucket × List AccountBucket)
update_first p f [] = none
update_first p f (b ∷ bs) =
    if p b
    then some (f b, f b ∷ bs)
    else elim (update_first p f bs) [ none ↦ none | some (c, cs) ↦ some (c, b ∷ cs) ]

-- The loop that adds the ids of an imported bucket to one that is here.
unfoldable pub merge_ids : List Text → List Text → List Text
merge_ids existing [] = existing
merge_ids existing (id ∷ ids) =
    let rest = merge_ids (if contains existing id then existing else existing ++ id ∷ []) ids in
    if leb max_accounts (length existing) then existing else rest

-- The bucket that an import is merged into: the same id, or the same name and provider.
unfoldable pub same_provider : Option Provider → Option Provider → Bool
same_provider none none = true
same_provider none (some q) = false
same_provider (some p) none = false
same_provider (some p) (some q) = provider_eq p q

unfoldable pub is_same_bucket : AccountBucket → AccountBucket → Bool
unfolding same_provider
is_same_bucket incoming b =
    text_eq b.id incoming.id
    || (eq_ignore_ascii_case (trim b.name) (trim incoming.name)
        && same_provider b.provider incoming.provider)

-- The bounds that `upsert_imported` puts on what a peer sends.
unfoldable pub bound_incoming : AccountBucket → AccountBucket
bound_incoming incoming = record incoming {
  name = clamp_chars max_bucket_name_chars (trim incoming.name);
  account_ids = normalize_account_ids incoming.account_ids;
  created_at = clamp_chars max_timestamp_chars incoming.created_at;
  updated_at = clamp_chars max_timestamp_chars incoming.updated_at;
}

abbrev pub has_id : Text → AccountBucket → Bool
has_id id b = text_eq b.id id

-- The bucket that `save` writes over one that is here, and what an import makes of one.
unfoldable pub edited :
    Text → Text → Text → Option Provider → List Text → AccountBucket → AccountBucket
edited id now name provider account_ids b = record {
  id = id;
  name = name;
  provider = provider;
  account_ids = account_ids;
  created_at = b.created_at;
  updated_at = now;
}

unfoldable pub merged : Text → List Text → AccountBucket → AccountBucket
merged now incoming_ids b = record b {
  account_ids = merge_ids b.account_ids incoming_ids;
  updated_at = now;
}

-- One bucket of the loop of `cleanup_account`: is it changed, and what it becomes.
unfoldable pub holds_account : Text → AccountBucket → Bool
holds_account account_id b = not (length (without account_id b.account_ids) == length b.account_ids)

unfoldable pub drop_account : Text → Text → AccountBucket → AccountBucket
unfolding holds_account
drop_account account_id now b =
    if holds_account account_id b
    then record b { account_ids = without account_id b.account_ids; updated_at = now }
    else record b { account_ids = without account_id b.account_ids }

unfoldable pub delete_bucket : Text → List AccountBucket → List AccountBucket
delete_bucket id [] = []
delete_bucket id (b ∷ bs) = if text_eq b.id id then delete_bucket id bs else b ∷ delete_bucket id bs

module _ {P : Type 0} (json : Codec BucketsFile P) where
  unfoldable pub load : Io → Io → Io → JsonFile P → Result Text (BucketStore P)
  unfolding open_file
  load dir read private file =
      elim (open_file json dir read private (record { version = 0; buckets = [] }) file) [
        | ok (f, saved) ↦ ok (record { file = f; buckets = saved.buckets })
        | err e ↦ err e
      ]

  unfoldable pub persist : Write → BucketStore P → BucketStore P × Result BucketError (Unit {0})
  unfolding save_file
  persist io s =
      let (f, result) = save_file json io s.file (record { version = 1; buckets = s.buckets }) in
      (record s { file = f }, elim result [ ok _ ↦ ok tt | err e ↦ err (file_error e) ])

  -- Writes the new list, and returns `a` if that succeeds. The list stays in memory if it does not.
  abbrev pub commit :
      {A : Type 0}
      → Write
      → BucketStore P
      → List AccountBucket
      → A
      → BucketStore P × Result BucketError A
  commit io s buckets a =
      let (s', result) = persist io (record s { buckets = buckets }) in
      (s', elim result [ ok _ ↦ ok a | err e ↦ err e ])

  -- The part of `save` behind its checks.
  unfoldable pub store_bucket :
      Write
      → Text
      → Text
      → Option Text
      → Text
      → Option Provider
      → List Text
      → BucketStore P
      → BucketStore P × Result BucketError AccountBucket
  store_bucket io now uuid (some bucket_id) name provider account_ids s =
      elim (update_first (has_id bucket_id) (edited bucket_id now name provider account_ids)
        s.buckets) [
          | none ↦ (s, err not_found)
          | some (bucket, buckets) ↦ commit io s buckets bucket
        ]
  store_bucket io now uuid none name provider account_ids s =
      let bucket : AccountBucket = record {
        id = codes "bucket_" ++ uuid;
        name = name;
        provider = provider;
        account_ids = account_ids;
        created_at = now;
        updated_at = now;
      } in
      if leb max_buckets (length s.buckets)
      then (s, err too_many_buckets)
      else commit io s (s.buckets ++ bucket ∷ []) bucket

  unfoldable pub save :
      Write
      → Text
      → Text
      → Option Text
      → Text
      → Option Provider
      → List Text
      → BucketStore P
      → BucketStore P × Result BucketError AccountBucket
  save io now uuid id name provider account_ids s =
      if is_empty (trim name)
      then (s, err empty_name)
      else if ltb max_bucket_name_chars (length (trim name))
      then (s, err long_name)
      else if ltb max_accounts (length account_ids)
      then (s, err too_many_accounts)
      else store_bucket io now uuid id (trim name) provider (normalize_account_ids account_ids) s

  unfoldable pub upsert_imported :
      Write → Text → AccountBucket → BucketStore P → BucketStore P × Result BucketError (Unit {0})
  upsert_imported io now incoming s =
      let bounded = bound_incoming incoming in
      if is_empty bounded.name
      then (s, err empty_name)
      else elim (update_first (is_same_bucket bounded) (merged now bounded.account_ids) s.buckets) [
        | some (_, buckets) ↦ commit io s buckets tt
        | none ↦
            if leb max_buckets (length s.buckets)
            then (s, err too_many_buckets)
            else commit io s (s.buckets ++ bounded ∷ []) tt
      ]

  unfoldable pub delete :
      Write → Text → BucketStore P → BucketStore P × Result BucketError (Unit {0})
  delete io id s =
      let rest = delete_bucket id s.buckets in
      if length rest == length s.buckets
      then (record s { buckets = rest }, ok tt)
      else commit io s rest tt

  unfoldable pub clear : Write → BucketStore P → BucketStore P × Result BucketError (Unit {0})
  clear io s = elim s.buckets [ [] ↦ (s, ok tt) | _ ∷ _ ↦ commit io s [] tt ]

  unfoldable pub cleanup_account :
      Write → Text → Text → BucketStore P → BucketStore P × Result BucketError (Unit {0})
  cleanup_account io now account_id s =
      let buckets = map (drop_account account_id now) s.buckets in
      if any_of (holds_account account_id) s.buckets
      then commit io s buckets tt
      else (record s { buckets = buckets }, ok tt)

-- The calls that a history is made of, each with what its environment does.
pub data Call : Type 0 where
  saves : Write → Text → Text → Option Text → Text → Option Provider → List Text → Call
  imports : Write → Text → AccountBucket → Call
  deletes : Write → Text → Call
  clears : Write → Call
  cleans : Write → Text → Text → Call

module _ {P : Type 0} (json : Codec BucketsFile P) where
  unfoldable pub step : Call → BucketStore P → BucketStore P
  step (saves io now uuid id name provider account_ids) s =
      (save json io now uuid id name provider account_ids s).0
  step (imports io now incoming) s = (upsert_imported json io now incoming s).0
  step (deletes io id) s = (delete json io id s).0
  step (clears io) s = (clear json io s).0
  step (cleans io now account_id) s = (cleanup_account json io now account_id s).0

  unfoldable pub run : List Call → BucketStore P → BucketStore P
  run [] s = s
  run (c ∷ cs) s = run cs (step c s)
