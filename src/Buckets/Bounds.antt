-- ===== src/Buckets/Bounds.antt =====
-- The bounds on the groups: at most 64 groups, each with a name of 1 to 80 characters and at
-- most 64 distinct plain account ids.
use ai_usage_tracker.Prelude.{
  ◌≤◌, ◌<◌, ◌≡◌, refl, inl, inr, Bool, false, ◌==◌, leb, ltb, Option, none, some, List, [], ◌∷◌,
  ◌++◌, map, arith, Bool-cases, Option-cases, List-cases, length, length-append, All, All-append,
  any_of, Text, text_eq, trim,
}
use ai_usage_tracker.Model.{Provider}
use ai_usage_tracker.Limits.{
  max_buckets, max_bucket_name_chars, max_accounts, length-clamp_chars, is_empty,
}
use ai_usage_tracker.JsonFile.{Codec, Write}
use ai_usage_tracker.Buckets.{
  AccountBucket, BucketsFile, BucketStore, update_first, has_id, edited, merged, is_same_bucket,
  bound_incoming, normalize_account_ids, holds_account, drop_account, delete_bucket, persist,
  store_bucket, save, upsert_imported, delete, clear, cleanup_account, Call, saves, imports,
  deletes, clears, cleans, step, run,
}
use ai_usage_tracker.Buckets.AccountIds.{
  IdsValid, normalize_account_ids-IdsValid, merge_ids-IdsValid, without-IdsValid,
}

pub record IsBounded (b : AccountBucket) : Type 0 where
  pub named : is_empty b.name ≡ false
  pub short : length b.name ≤ max_bucket_name_chars
  pub ids : IdsValid b.account_ids

pub record IsValid (buckets : List AccountBucket) : Type 0 where
  pub count : length buckets ≤ max_buckets
  pub each : All IsBounded buckets

update_first-All :
    (p : AccountBucket → Bool) (f : AccountBucket → AccountBucket)
    → ((b : AccountBucket) → IsBounded b → IsBounded (f b))
    → (bs cs : List AccountBucket) (c : AccountBucket) → update_first p f bs ≡ some (c, cs)
    → All IsBounded bs
    → All IsBounded cs × (length cs ≡ length bs)
unfolding update_first
update_first-All p f keeps [] cs c e v = absurd (ground (arith, e))
update_first-All p f keeps (b ∷ bs) cs c e v = elim (Bool-cases (p b)) [
  | inl hit ↦
      let same : f b ∷ bs ≡ cs = ground (arith, hit, e) in rw (← same) ((keeps b v.0, v.1), refl)
  | inr miss ↦ elim (Option-cases (update_first p f bs)) [
    | inl n ↦ absurd (ground (arith, miss, n, e))
    | inr ((d, ds), s) ↦
        let same : b ∷ ds ≡ cs = ground (arith, miss, s, e) in
        let (rest, n) = update_first-All p f keeps bs ds d s v.1 in
        rw (← same) ((v.0, rest), omega arith)
  ]
]

update_first-IsValid :
    (p : AccountBucket → Bool) (f : AccountBucket → AccountBucket)
    → ((b : AccountBucket) → IsBounded b → IsBounded (f b))
    → (bs cs : List AccountBucket) (c : AccountBucket) → update_first p f bs ≡ some (c, cs)
    → IsValid bs
    → IsValid cs
update_first-IsValid p f keeps bs cs c e v =
    let (each, n) = update_first-All p f keeps bs cs c e v.each in
    record { count = omega (arith, v.count); each = each }

push-IsValid :
    (bs : List AccountBucket) (b : AccountBucket)
    → IsValid bs
    → length bs < max_buckets
    → IsBounded b
    → IsValid (bs ++ b ∷ [])
push-IsValid bs b v room h = record {
  count = omega (arith, length-append bs (b ∷ []));
  each = All-append IsBounded bs (b ∷ []) v.each (h, tt);
}

empty-IsValid : IsValid []
empty-IsValid = record { count = omega arith; each = tt }

drop_account-IsBounded :
    (a now : Text) (b : AccountBucket) → IsBounded b → IsBounded (drop_account a now b)
unfolding drop_account
drop_account-IsBounded a now b v = elim (Bool-cases (holds_account a b)) [
  | inl e ↦
      rw e
        (record { named = v.named; short = v.short; ids = without-IdsValid a b.account_ids v.ids })
  | inr e ↦
      rw e
        (record { named = v.named; short = v.short; ids = without-IdsValid a b.account_ids v.ids })
]

map-IsValid :
    (f : AccountBucket → AccountBucket)
    → ((b : AccountBucket) → IsBounded b → IsBounded (f b))
    → (bs : List AccountBucket) → All IsBounded bs
    → All IsBounded (map f bs) × (length (map f bs) ≡ length bs)
map-IsValid f keeps [] v = (tt, refl)
map-IsValid f keeps (b ∷ bs) v =
    let (rest, n) = map-IsValid f keeps bs v.1 in ((keeps b v.0, rest), omega arith)

delete_bucket-All :
    (id : Text) (bs : List AccountBucket)
    → All IsBounded bs
    → All IsBounded (delete_bucket id bs) × (length (delete_bucket id bs) ≤ length bs)
unfolding delete_bucket
delete_bucket-All id [] v = (tt, omega arith)
delete_bucket-All id (b ∷ bs) v =
    let (rest, n) = delete_bucket-All id bs v.1 in
    elim (Bool-cases (text_eq b.id id)) [
      | inl e ↦ rw e (rest, omega arith)
      | inr e ↦ rw e ((v.0, rest), omega arith)
    ]

bound_incoming-IsBounded :
    (b : AccountBucket) → is_empty (bound_incoming b).name ≡ false → IsBounded (bound_incoming b)
unfolding bound_incoming
bound_incoming-IsBounded b h = record {
  named = h;
  short = length-clamp_chars max_bucket_name_chars (trim b.name);
  ids = normalize_account_ids-IdsValid b.account_ids;
}

module _ {P : Type 0} (json : Codec BucketsFile P) where
  store_bucket-IsValid :
      (io : Write) (now uuid : Text) (id : Option Text) (name : Text) (provider : Option Provider)
      (account_ids : List Text) (s : BucketStore P)
      → IsValid s.buckets
      → is_empty name ≡ false
      → length name ≤ max_bucket_name_chars
      → IdsValid account_ids
      → IsValid (store_bucket json io now uuid id name provider account_ids s).0.buckets
  unfolding store_bucket persist edited
  store_bucket-IsValid io now uuid none name provider account_ids s v named short ids =
      elim (Bool-cases (leb max_buckets (length s.buckets))) [
        | inl full ↦ rw full v
        | inr room ↦ rw room (
            push-IsValid s.buckets _ v (ground arith)
              (record { named = named; short = short; ids = ids }))
      ]
  store_bucket-IsValid io now uuid (some bucket_id) name provider account_ids s v named short ids =
      let bucket = edited bucket_id now name provider account_ids in
      elim (Option-cases (update_first (has_id bucket_id) bucket s.buckets)) [
        | inl e ↦ rw (e, store_bucket) v
        | inr ((c, cs), e) ↦
            rw (e, store_bucket)
              (update_first-IsValid (has_id bucket_id) bucket
                (λ b _. record { named = named; short = short; ids = ids }) s.buckets cs c e v)
      ]

  save-IsValid :
      (io : Write) (now uuid : Text) (id : Option Text) (name : Text) (provider : Option Provider)
      (account_ids : List Text) (s : BucketStore P)
      → IsValid s.buckets
      → IsValid (save json io now uuid id name provider account_ids s).0.buckets
  unfolding save
  save-IsValid io now uuid id name provider account_ids s v =
      elim (Bool-cases (is_empty (trim name))) [
        | inl e ↦ rw e v
        | inr named ↦ rw named (elim (Bool-cases (ltb max_bucket_name_chars (length (trim name)))) [
          | inl e ↦ rw e v
          | inr short ↦ rw short (elim (Bool-cases (ltb max_accounts (length account_ids))) [
            | inl e ↦ rw e v
            | inr few ↦ rw few (
                store_bucket-IsValid io now uuid id (trim name) provider
                  (normalize_account_ids account_ids) s v named (ground arith)
                  (normalize_account_ids-IdsValid account_ids))
          ])
        ])
      ]

  merged-IsBounded :
      (now : Text) (incoming : List Text)
      → IdsValid incoming
      → (b : AccountBucket) → IsBounded b
      → IsBounded (merged now incoming b)
  unfolding merged
  merged-IsBounded now incoming h b v = record {
    named = v.named;
    short = v.short;
    ids = merge_ids-IdsValid incoming b.account_ids v.ids h.plain;
  }

  upsert_imported-IsValid :
      (io : Write) (now : Text) (incoming : AccountBucket) (s : BucketStore P)
      → IsValid s.buckets
      → IsValid (upsert_imported json io now incoming s).0.buckets
  unfolding upsert_imported persist
  upsert_imported-IsValid io now incoming s v =
      let bounded = bound_incoming incoming in
      elim (Bool-cases (is_empty bounded.name)) [
        | inl e ↦ rw e v
        | inr named ↦
            let fits = bound_incoming-IsBounded incoming named in
            rw named
              (elim (Option-cases (
                update_first (is_same_bucket bounded) (merged now bounded.account_ids) s.buckets)) [
                  | inl e ↦ rw e (elim (Bool-cases (leb max_buckets (length s.buckets))) [
                    | inl full ↦ rw full v
                    | inr room ↦ rw room (push-IsValid s.buckets bounded v (ground arith) fits)
                  ])
                  | inr ((c, cs), e) ↦ rw e (
                      update_first-IsValid (is_same_bucket bounded) (merged now bounded.account_ids)
                        (merged-IsBounded now bounded.account_ids fits.ids) s.buckets cs c e v)
                ])
      ]

  delete-IsValid :
      (io : Write) (id : Text) (s : BucketStore P)
      → IsValid s.buckets
      → IsValid (delete json io id s).0.buckets
  unfolding delete persist
  delete-IsValid io id s v =
      let (each, n) = delete_bucket-All id s.buckets v.each in
      let rest : IsValid (delete_bucket id s.buckets) = record {
        count = omega (arith, v.count);
        each = each;
      } in
      elim (Bool-cases (length (delete_bucket id s.buckets) == length s.buckets)) [
        | inl e ↦ rw e rest
        | inr e ↦ rw e rest
      ]

  clear-IsValid :
      (io : Write) (s : BucketStore P) → IsValid s.buckets → IsValid (clear json io s).0.buckets
  unfolding clear persist
  clear-IsValid io s v = elim (List-cases s.buckets) [
    | inl e ↦ rw (e, clear) v
    | inr (b, bs, e) ↦ rw (e, clear) empty-IsValid
  ]

  cleanup_account-IsValid :
      (io : Write) (now account_id : Text) (s : BucketStore P)
      → IsValid s.buckets
      → IsValid (cleanup_account json io now account_id s).0.buckets
  unfolding cleanup_account persist
  cleanup_account-IsValid io now account_id s v =
      let (each, n) =
        map-IsValid (drop_account account_id now) (drop_account-IsBounded account_id now) s.buckets
          v.each in
      let cleaned : IsValid (map (drop_account account_id now) s.buckets) = record {
        count = omega (arith, v.count);
        each = each;
      } in
      elim (Bool-cases (any_of (holds_account account_id) s.buckets)) [
        | inl e ↦ rw e cleaned
        | inr e ↦ rw e cleaned
      ]

  -- From buckets within the bounds, every history of calls, whether or not their writes reach the
  -- disk, keeps them there.
  pub run-IsValid :
      (calls : List Call) (s : BucketStore P)
      → IsValid s.buckets
      → IsValid (run json calls s).buckets
  unfolding run step
  run-IsValid [] s v = v
  run-IsValid (saves io now uuid id name provider ids ∷ calls) s v =
      run-IsValid calls _ (save-IsValid io now uuid id name provider ids s v)
  run-IsValid (imports io now incoming ∷ calls) s v =
      run-IsValid calls _ (upsert_imported-IsValid io now incoming s v)
  run-IsValid (deletes io id ∷ calls) s v = run-IsValid calls _ (delete-IsValid io id s v)
  run-IsValid (clears io ∷ calls) s v = run-IsValid calls _ (clear-IsValid io s v)
  run-IsValid (cleans io now account_id ∷ calls) s v =
      run-IsValid calls _ (cleanup_account-IsValid io now account_id s v)
