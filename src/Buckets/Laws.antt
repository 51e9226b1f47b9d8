-- ===== src/Buckets/Laws.antt =====
-- What an edit, a cleanup and an import change, and what they leave alone.
use ai_usage_tracker.Prelude.{
  ◌≡◌, refl, ap, ap₂, inl, inr, Bool, true, false, ◌==◌, ◌++◌, if◌then◌else◌, Option, some, List,
  [], ◌∷◌, map, arith, Bool-cases, Option-cases, length, All, any_of, Text, text_eq_refl, trim,
  without, contains, contains-without, without_absent, length-without-lt, ok,
}
use ai_usage_tracker.Model.{Provider}
use ai_usage_tracker.JsonFile.{Codec, Write}
use ai_usage_tracker.Buckets.{
  AccountBucket, BucketsFile, BucketStore, update_first, has_id, edited, holds_account,
  drop_account, normalize_account_ids, persist, store_bucket, save, cleanup_account,
}

-- One bucket of the list is changed, and it is the first that passes the test.
pub record Changed (p : AccountBucket → Bool) (f : AccountBucket → AccountBucket)
    (bs cs : List AccountBucket) (c : AccountBucket) : Type 0 where
  pub before : List AccountBucket
  pub old : AccountBucket
  pub after : List AccountBucket
  pub was : bs ≡ before ++ old ∷ after
  pub becomes : cs ≡ before ++ c ∷ after
  pub passes : p old ≡ true
  pub image : c ≡ f old
  pub first : All (λ b. p b ≡ false) before

pub update_first_lem :
    (p : AccountBucket → Bool) (f : AccountBucket → AccountBucket) (bs cs : List AccountBucket)
    (c : AccountBucket)
    → update_first p f bs ≡ some (c, cs)
    → Changed p f bs cs c
unfolding update_first
update_first_lem p f [] cs c e = absurd (ground (arith, e))
update_first_lem p f (b ∷ bs) cs c e = elim (Bool-cases (p b)) [
  | inl hit ↦
      let same : (f b ≡ c) × (f b ∷ bs ≡ cs) = ground (arith, hit, e) in
      record {
        before = [];
        old = b;
        after = bs;
        was = refl;
        becomes = ground (arith, same);
        passes = hit;
        image = ground (arith, same);
        first = tt;
      }
  | inr miss ↦ elim (Option-cases (update_first p f bs)) [
    | inl n ↦ absurd (ground (arith, miss, n, e))
    | inr ((d, ds), s) ↦
        let same : (d ≡ c) × (b ∷ ds ≡ cs) = ground (arith, miss, s, e) in
        let r = update_first_lem p f bs ds d s in
        record {
          before = b ∷ r.before;
          old = r.old;
          after = r.after;
          was = ap (◌∷◌ b) r.was;
          becomes = ground (arith, same, r.becomes);
          passes = r.passes;
          image = ground (arith, same, r.image);
          first = (miss, r.first);
        }
  ]
]

module _ {P : Type 0} (json : Codec BucketsFile P) where
  store_bucket_edits :
      (io : Write) (now uuid bucket_id name : Text) (provider : Option Provider)
      (account_ids : List Text) (s : BucketStore P) (bucket : AccountBucket)
      → (store_bucket json io now uuid (some bucket_id) name provider account_ids s).1 ≡ ok bucket
      → Changed
          (has_id bucket_id)
          (edited bucket_id now name provider account_ids)
          s.buckets
          (store_bucket json io now uuid (some bucket_id) name provider account_ids s).0.buckets
          bucket
  unfolding store_bucket persist
  store_bucket_edits io now uuid bucket_id name provider account_ids s bucket h =
      let f = edited bucket_id now name provider account_ids in
      elim (Option-cases (update_first (has_id bucket_id) f s.buckets)) [
        | inl e ↦ absurd (ground (arith, e))
        | inr ((c, cs), e) ↦
            let same : c ≡ bucket = ground (arith, e, h) in
            rw (e, store_bucket, ← same) (update_first_lem (has_id bucket_id) f s.buckets cs c e)
      ]

  save_ok :
      (io : Write) (now uuid : Text) (id : Option Text) (name : Text) (provider : Option Provider)
      (account_ids : List Text) (s : BucketStore P) (bucket : AccountBucket)
      → (save json io now uuid id name provider account_ids s).1 ≡ ok bucket
      → save json io now uuid id name provider account_ids s
        ≡ store_bucket json io now uuid id
            (trim name)
            provider
            (normalize_account_ids account_ids)
            s
  unfolding save
  save_ok io now uuid id name provider account_ids s bucket h = ground arith

  -- An edit whose save succeeds rewrites one bucket, the first of that id: it takes the trimmed name, the provider
  -- and the cleaned ids, keeps its creation time, and no other bucket changes.
  pub save_edits_one :
      (io : Write) (now uuid bucket_id name : Text) (provider : Option Provider)
      (account_ids : List Text) (s : BucketStore P) (bucket : AccountBucket)
      → (save json io now uuid (some bucket_id) name provider account_ids s).1 ≡ ok bucket
      → Changed
          (has_id bucket_id)
          (edited bucket_id now (trim name) provider (normalize_account_ids account_ids))
          s.buckets
          (save json io now uuid (some bucket_id) name provider account_ids s).0.buckets
          bucket
  save_edits_one io now uuid bucket_id name provider account_ids s bucket h =
      let ids = normalize_account_ids account_ids in
      let inner = save_ok io now uuid (some bucket_id) name provider account_ids s bucket h in
      let stored : (store_bucket json io now uuid (some bucket_id) (trim name) provider ids s).1
          ≡ ok bucket =
        rw (← inner) h in
      rw inner (store_bucket_edits io now uuid bucket_id (trim name) provider ids s bucket stored)

same_length : (xs : List Text) → (length xs == length xs) ≡ true
same_length xs = ground arith

holds_account_lem :
    (a : Text) (b : AccountBucket) → contains b.account_ids a ≡ false → holds_account a b ≡ false
unfolding holds_account
holds_account_lem a b h = rw (without_absent a b.account_ids h) (ground arith)

-- What a cleanup makes of one bucket, as a description of its own.
abbrev pub cleaned : Text → Text → AccountBucket → AccountBucket
cleaned a now b =
    if contains b.account_ids a
    then record b { account_ids = without a b.account_ids; updated_at = now }
    else b

drop_account-gone :
    (a now : Text) (b : AccountBucket) → contains (drop_account a now b).account_ids a ≡ false
unfolding drop_account
drop_account-gone a now b = ground (arith, contains-without a a b.account_ids, text_eq_refl a)

drop_account-cleaned : (a now : Text) (b : AccountBucket) → drop_account a now b ≡ cleaned a now b
unfolding drop_account
drop_account-cleaned a now b = elim (Bool-cases (contains b.account_ids a)) [
  | inl e ↦
      let shorter : (length (without a b.account_ids) == length b.account_ids) ≡ false =
        ground (arith, length-without-lt a b.account_ids e) in
      rw (e, shorter) refl
  | inr e ↦ rw (e, without_absent a b.account_ids e, same_length b.account_ids) refl
]

map-cleaned :
    (a now : Text) (bs : List AccountBucket)
    → (map (drop_account a now) bs ≡ map (cleaned a now) bs)
      × All (λ b. contains b.account_ids a ≡ false) (map (drop_account a now) bs)
map-cleaned a now [] = (refl, tt)
map-cleaned a now (b ∷ bs) =
    let (same, gone) = map-cleaned a now bs in
    (ap₂ (λ x xs. x ∷ xs) (drop_account-cleaned a now b) same, (drop_account-gone a now b, gone))

-- `cleanup_account` takes the account out of every bucket, marks those that had it as updated, and
-- leaves the others as they were. So no bucket lists the account any more.
module _ {P : Type 0} (json : Codec BucketsFile P) where
  pub cleanup_account_lem :
      (io : Write) (now a : Text) (s : BucketStore P)
      → ((cleanup_account json io now a s).0.buckets ≡ map (cleaned a now) s.buckets)
        × All (λ b. contains b.account_ids a ≡ false) (cleanup_account json io now a s).0.buckets
  unfolding cleanup_account persist
  cleanup_account_lem io now a s = elim (Bool-cases (any_of (holds_account a) s.buckets)) [
    | inl e ↦ rw e (map-cleaned a now s.buckets)
    | inr e ↦ rw e (map-cleaned a now s.buckets)
  ]
