-- ===== src/Tests/Groups.antt =====
-- The account groups.
use ai_usage_tracker.Prelude.{
  ◌≡◌, refl, false, none, some, ok, List, [], ◌∷◌, map, All, codes, text_eq, contains, trim, err,
  arith, is_whitespace, is_ascii_alphanumeric, byte_len, without, to_ascii_lower,
}
use ai_usage_tracker.Limits.{is_valid_account_id, clamp_chars}
use ai_usage_tracker.JsonFile.{Codec, save_file}
use ai_usage_tracker.Buckets.{
  AccountBucket, BucketsFile, BucketStore, Call, saves, imports, cleans, run, step, save,
  store_bucket, has_id, edited, persist, cleanup_account, normalize_account_ids, normalize_from,
  update_first, holds_account, drop_account, bound_incoming, is_same_bucket, merged, merge_ids,
  upsert_imported,
}
use ai_usage_tracker.Buckets.Bounds.{IsValid, run-IsValid}
use ai_usage_tracker.Buckets.Laws.{Changed, save_edits_one, cleaned, cleanup_account_lem}
use ai_usage_tracker.Buckets.Imports.{IsMerged, upsert_imported-IsMerged}
use ai_usage_tracker.Tests.Samples.{plain_codec, no_file, written}

abbrev json : Codec BucketsFile BucketsFile
json = plain_codec

abbrev team : AccountBucket
team = record {
  id = codes "bucket_1";
  name = codes "Team";
  provider = none;
  account_ids = codes "a" ∷ codes "b" ∷ [];
  created_at = codes "t0";
  updated_at = codes "t0";
}

abbrev empty_store : BucketStore BucketsFile
empty_store = record { file = no_file; buckets = [] }

abbrev store : BucketStore BucketsFile
store = record { file = no_file; buckets = team ∷ [] }

-- A peer's group of the same name.
abbrev incoming : AccountBucket
incoming = record {
  id = codes "bucket_9";
  name = codes " team ";
  provider = none;
  account_ids = codes "c" ∷ codes "../x" ∷ [];
  created_at = codes "t7";
  updated_at = codes "t7";
}

abbrev calls : List Call
calls =
    saves written (codes "t1") (codes "1") none (codes " Team ") none
      (codes "a" ∷ codes "a" ∷ codes "../x" ∷ [])
    ∷ imports written (codes "t2") incoming
    ∷ cleans (record { replaced = err (codes "disk full"); hardened = ok tt }) (codes "t3")
        (codes "a")
    ∷ []

ran :
    map (λ (b : AccountBucket). b.account_ids) (run json calls empty_store).buckets
    ≡ (codes "c" ∷ []) ∷ []
unfolding run step save store_bucket upsert_imported cleanup_account persist save_file trim
    is_whitespace normalize_account_ids normalize_from is_valid_account_id is_ascii_alphanumeric
    byte_len text_eq contains bound_incoming clamp_chars is_same_bucket merged merge_ids without
    to_ascii_lower update_first holds_account drop_account
ran = refl

run-IsValid_example : IsValid (run json calls empty_store).buckets
run-IsValid_example = run-IsValid json calls empty_store (record { count = omega arith; each = tt })

save_edits_one_example :
    Changed
      (has_id (codes "bucket_1"))
      (edited
        (codes "bucket_1")
        (codes "t4")
        (trim (codes " Crew "))
        none
        (normalize_account_ids (codes "b" ∷ [])))
      store.buckets
      (save json written
        (codes "t4")
        (codes "2")
        (some (codes "bucket_1"))
        (codes " Crew ")
        none
        (codes "b" ∷ [])
        store).0.buckets
      (edited (codes "bucket_1") (codes "t4") (codes "Crew") none (codes "b" ∷ []) team)
unfolding save store_bucket persist save_file trim is_whitespace normalize_account_ids
    normalize_from is_valid_account_id is_ascii_alphanumeric byte_len text_eq contains edited
    update_first
save_edits_one_example =
    save_edits_one json written (codes "t4") (codes "2") (codes "bucket_1") (codes " Crew ") none
      (codes "b" ∷ []) store
      (edited (codes "bucket_1") (codes "t4") (codes "Crew") none (codes "b" ∷ []) team) refl

cleanup_account_lem_example :
    ((cleanup_account json written (codes "t5") (codes "a") store).0.buckets
      ≡ map (cleaned (codes "a") (codes "t5")) store.buckets)
    × All
        (λ b. contains b.account_ids (codes "a") ≡ false)
        (cleanup_account json written (codes "t5") (codes "a") store).0.buckets
cleanup_account_lem_example = cleanup_account_lem json written (codes "t5") (codes "a") store

upsert_imported-IsMerged_example :
    IsMerged
      (is_same_bucket (bound_incoming incoming))
      (codes "t6")
      (normalize_account_ids incoming.account_ids)
      store.buckets
      (upsert_imported json written (codes "t6") incoming store).0.buckets
unfolding trim is_whitespace text_eq bound_incoming clamp_chars is_same_bucket to_ascii_lower
upsert_imported-IsMerged_example =
    upsert_imported-IsMerged json written (codes "t6") incoming store refl refl
