-- ===== src/Buckets/Imports.antt =====
-- src-tauri/src/store/buckets.rs: an imported group that matches one that is here.
use ai_usage_tracker.Prelude.{
  ◌≡◌, ◌≤◌, ◌⊎◌, refl, ap, ◌∙◌, inl, inr, Bool, true, false, ◌||◌, ◌++◌, some, List, [], ◌∷◌, leb,
  arith, Bool-cases, length, All, any_of, Text, contains, contains-append, text_eq, text_eq_iff,
}
use ai_usage_tracker.Limits.{is_empty}
use ai_usage_tracker.JsonFile.{Codec, Write}
use ai_usage_tracker.Buckets.{
  AccountBucket, BucketsFile, BucketStore, update_first, merge_ids, merged, is_same_bucket,
  bound_incoming, normalize_account_ids, persist, upsert_imported,
}
use ai_usage_tracker.Buckets.Laws.{update_first_lem}

-- The ids `new` come from adding `ids` to `old`: none is lost, none comes from elsewhere, and one of
-- `ids` is only left out of 64 or more.
pub record Gained (ids old new : List Text) : Type 0 where
  pub keeps : (a : Text) → contains old a ≡ true → contains new a ≡ true
  pub only : (a : Text) → contains new a ≡ true → contains old a || contains ids a ≡ true
  pub gains : (a : Text) → contains ids a ≡ true → (contains new a ≡ true) ⊎ (64 ≤ length new)

-- The groups `bs` become `cs`: the first that matches gains the ids and a new time, and is the same
-- in all else; the other groups stay.
pub record IsMerged (matches : AccountBucket → Bool) (now : Text) (ids : List Text)
    (bs cs : List AccountBucket) : Type 0 where
  pub before : List AccountBucket
  pub old : AccountBucket
  pub new_ids : List Text
  pub after : List AccountBucket
  pub was : bs ≡ before ++ old ∷ after
  pub becomes : cs ≡ before ++ record old { account_ids = new_ids; updated_at = now } ∷ after
  pub first : All (λ b. matches b ≡ false) before
  pub passes : matches old ≡ true
  pub gained : Gained ids old.account_ids new_ids

keeps_ids :
    (ids old : List Text) (a : Text) → contains old a ≡ true → contains (merge_ids old ids) a ≡ true
unfolding merge_ids
keeps_ids [] old a h = h
keeps_ids (id ∷ ids) old a h =
    ground (
      arith,
      contains-append old (id ∷ []) a,
      keeps_ids ids old a,
      keeps_ids ids (old ++ id ∷ []) a,
    )

only_ids :
    (ids old : List Text) (a : Text)
    → contains (merge_ids old ids) a ≡ true
    → contains old a || contains ids a ≡ true
unfolding merge_ids contains
only_ids [] old a h = ground arith
only_ids (id ∷ ids) old a h =
    ground
      (arith, contains-append old (id ∷ []) a, only_ids ids old a, only_ids ids (old ++ id ∷ []) a)

gains_ids :
    (ids old : List Text) (a : Text)
    → contains ids a ≡ true
    → (contains (merge_ids old ids) a ≡ true) ⊎ (64 ≤ length (merge_ids old ids))
unfolding merge_ids contains
gains_ids [] old a h = cc
gains_ids (id ∷ ids) old a h = elim (Bool-cases (leb 64 (length old))) [
  | inl full ↦ inr (ground (arith, full))
  | inr room ↦ elim (Bool-cases (text_eq id a)) [
    | inl same ↦ inl (
        ground (
          arith,
          room,
          same,
          text_eq_iff id a,
          contains-append old (id ∷ []) a,
          keeps_ids ids old a,
          keeps_ids ids (old ++ id ∷ []) a,
        ))
    | inr other ↦
        let rest : contains ids a ≡ true = ground (arith, other, h) in
        elim (Bool-cases (contains old id)) [
          | inl has ↦ rw (merge_ids, room, has) (gains_ids ids old a rest)
          | inr lacks ↦ rw (merge_ids, room, lacks) (gains_ids ids (old ++ id ∷ []) a rest)
        ]
  ]
]

merge_ids-Gained : (ids old : List Text) → Gained ids old (merge_ids old ids)
merge_ids-Gained ids old = record {
  keeps = keeps_ids ids old;
  only = only_ids ids old;
  gains = gains_ids ids old;
}

first_match_found :
    (p : AccountBucket → Bool) (f : AccountBucket → AccountBucket) (bs : List AccountBucket)
    → any_of p bs ≡ true
    → (c : AccountBucket) × (cs : List AccountBucket) × (update_first p f bs ≡ some (c, cs))
unfolding update_first
first_match_found p f [] h = cc
first_match_found p f (b ∷ bs) h = elim (Bool-cases (p b)) [
  | inl hit ↦ (f b, f b ∷ bs, rw (hit, update_first) refl)
  | inr miss ↦
      let (c, cs, e) = first_match_found p f bs (ground (arith, miss, h)) in
      (c, b ∷ cs, rw (miss, update_first, e) refl)
]

module _ {P : Type 0} (json : Codec BucketsFile P) where
  merges :
      (io : Write) (now : Text) (incoming : AccountBucket) (s : BucketStore P) (c : AccountBucket)
      (cs : List AccountBucket)
      → is_empty (bound_incoming incoming).name ≡ false
      → update_first
          (is_same_bucket (bound_incoming incoming))
          (merged now (bound_incoming incoming).account_ids)
          s.buckets
        ≡ some (c, cs)
      → (upsert_imported json io now incoming s).0.buckets ≡ cs
  unfolding upsert_imported persist
  merges io now incoming s c cs named e = rw (upsert_imported, named, e) refl

  -- An import that keeps a name after its bounds, and that matches a group here by id, or by name
  -- and provider, changes the first such group alone: it gains the ids that the import keeps
  -- after its bounds, unless it then has 64 or more, loses none, gets no others, and is marked as
  -- updated.
  pub upsert_imported-IsMerged :
      (io : Write) (now : Text) (incoming : AccountBucket) (s : BucketStore P)
      → is_empty (bound_incoming incoming).name ≡ false
      → any_of (is_same_bucket (bound_incoming incoming)) s.buckets ≡ true
      → IsMerged
          (is_same_bucket (bound_incoming incoming))
          now
          (normalize_account_ids incoming.account_ids)
          s.buckets
          (upsert_imported json io now incoming s).0.buckets
  unfolding upsert_imported persist merged bound_incoming
  upsert_imported-IsMerged io now incoming s named here =
      let matches = is_same_bucket (bound_incoming incoming) in
      let ids = normalize_account_ids incoming.account_ids in
      let (c, cs, e) = first_match_found matches (merged now ids) s.buckets here in
      let r = update_first_lem matches (merged now ids) s.buckets cs c e in
      record {
        before = r.before;
        old = r.old;
        new_ids = merge_ids r.old.account_ids ids;
        after = r.after;
        was = r.was;
        becomes =
            merges io now incoming s c cs named e
            ∙ r.becomes
            ∙ ap (λ b. r.before ++ b ∷ r.after) r.image;
        first = r.first;
        passes = r.passes;
        gained = merge_ids-Gained ids r.old.account_ids;
      }
