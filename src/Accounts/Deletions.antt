-- ===== src/Accounts/Deletions.antt =====
-- src-tauri/src/store/accounts.rs: additions to the list of deleted accounts.
use ai_usage_tracker.Prelude.{
  ◌+◌, ◌-◌, ◌≡◌, ◌≤◌, refl, Bool, true, false, not, ◌||◌, List, [], ◌∷◌, ◌++◌, ◌==◌, if◌then◌else◌,
  length, length-append, length-drop, Text, text_eq, eq_of_text_eq, contains, contains-append, ok,
  inl, inr, Bool-cases, arith,
}
use ai_usage_tracker.JsonFile.{Codec, Io, ReadsBack}
use ai_usage_tracker.Accounts.{Directory}
use ai_usage_tracker.Accounts.Tombstones.{
  TombstoneFile, max_tombstones, push_new, drop_oldest, merge_change, read_tombstone_file,
  write_tombstone_file, update_tombstones, merge_tombstones, record_deletion,
}

known_or :
    (ids : List Text) (d a : Text) (rest : Bool)
    → contains ids d ≡ true
    → (contains ids a || rest) ≡ (contains ids a || (text_eq d a || rest))
known_or ids d a rest h = ground (arith, eq_of_text_eq d a)

pub push_new-contains :
    (deleted_ids ids : List Text) (a : Text)
    → contains (push_new ids deleted_ids) a ≡ (contains ids a || contains deleted_ids a)
unfolding push_new contains
push_new-contains [] ids a = ground arith
push_new-contains (d ∷ ds) ids a = elim (Bool-cases (contains ids d)) [
  | inl e ↦ rw (e, push_new-contains ds ids a) (known_or ids d a (contains ds a) e)
  | inr n ↦
      rw (n, push_new-contains ds (ids ++ d ∷ []) a, contains-append ids (d ∷ []) a) (ground arith)
]

length-push_new-le :
    (deleted_ids ids : List Text)
    → length (push_new ids deleted_ids) ≤ length ids + length deleted_ids
unfolding push_new
length-push_new-le [] ids = omega arith
length-push_new-le (d ∷ ds) ids = elim (Bool-cases (contains ids d)) [
  | inl e ↦ rw e (omega (arith, length-push_new-le ds ids))
  | inr n ↦ rw n (omega (arith, length-push_new-le ds (ids ++ d ∷ []), length-append ids (d ∷ [])))
]

length-le-push_new : (deleted_ids ids : List Text) → length ids ≤ length (push_new ids deleted_ids)
unfolding push_new
length-le-push_new [] ids = omega arith
length-le-push_new (d ∷ ds) ids = elim (Bool-cases (contains ids d)) [
  | inl e ↦ rw e (length-le-push_new ds ids)
  | inr n ↦ rw n (omega (arith, length-le-push_new ds (ids ++ d ∷ []), length-append ids (d ∷ [])))
]

-- If nothing is added, the list is the same.
push_new_same_length :
    (deleted_ids ids : List Text)
    → length (push_new ids deleted_ids) ≡ length ids
    → push_new ids deleted_ids ≡ ids
unfolding push_new
push_new_same_length [] ids h = refl
push_new_same_length (d ∷ ds) ids h = elim (Bool-cases (contains ids d)) [
  | inl e ↦ ground (arith, e, push_new_same_length ds ids)
  | inr n ↦ ground (arith, n, length-le-push_new ds (ids ++ d ∷ []), length-append ids (d ∷ []))
]

merge_change_room :
    (ds ids : List Text)
    → length ids + length ds ≤ max_tombstones
    → merge_change ds ids ≡ (push_new ids ds, not (length (push_new ids ds) == length ids))
unfolding merge_change drop_oldest
merge_change_room ds ids n = ground (arith, length-push_new-le ds ids)

merge_change_full :
    (id : Text) (ids : List Text)
    → length ids ≡ max_tombstones
    → contains ids id ≡ false
    → (merge_change (id ∷ []) ids).1 ≡ false
unfolding merge_change drop_oldest push_new
merge_change_full id ids n h = ground (
  arith,
  h,
  length-append ids (id ∷ []),
  length-drop (length (ids ++ id ∷ []) - max_tombstones) (ids ++ id ∷ []),
)

module _ (json : Codec TombstoneFile Text) where
  read-write :
      (ids : List Text) (raw : Text) (dir : Directory)
      → ReadsBack json (λ file. file.deleted_account_ids)
      → json.to_vec_pretty (record { deleted_account_ids = ids }) ≡ ok raw
      → read_tombstone_file json (ok tt) (write_tombstone_file json (ok tt) ids dir) ≡ ids
  unfolding read_tombstone_file write_tombstone_file
  read-write ids raw dir law h =
      let file : TombstoneFile = record { deleted_account_ids = ids } in
      let (w, parsed, same) = law.from_str-to_vec_pretty file raw h in
      ground (arith, h, parsed, same)

  update_tombstones_lem :
      (read write : Io) (change : List Text → List Text × Bool) (dir : Directory)
      → update_tombstones json read write change dir ≡ (
          if (change (read_tombstone_file json read dir)).1
          then write_tombstone_file json write (change (read_tombstone_file json read dir)).0 dir
          else dir)
  unfolding update_tombstones
  update_tombstones_lem read write change dir = refl

  -- Where the list has room for all the ids, can be serialized and reads back, and the disk works, an
  -- id is on the list after a merge exactly when it was on it before or is among those merged.
  pub merge_tombstones_room :
      (deleted_ids : List Text) (raw : Text) (dir : Directory) (a : Text)
      → ReadsBack json (λ file. file.deleted_account_ids)
      → length (read_tombstone_file json (ok tt) dir) + length deleted_ids ≤ max_tombstones
      → json.to_vec_pretty (record {
        deleted_account_ids = push_new (read_tombstone_file json (ok tt) dir) deleted_ids;
      })
        ≡ ok raw
      → contains
          (read_tombstone_file json (ok tt) (merge_tombstones json (ok tt) (ok tt) deleted_ids dir))
          a
        ≡ (contains (read_tombstone_file json (ok tt) dir) a || contains deleted_ids a)
  unfolding merge_tombstones contains
  merge_tombstones_room [] raw dir a law n h = ground arith
  merge_tombstones_room (d ∷ ds) raw dir a law n h =
      let ids = read_tombstone_file json (ok tt) dir in
      let new = push_new ids (d ∷ ds) in
      ground (
        arith,
        update_tombstones_lem (ok tt) (ok tt) (merge_change (d ∷ ds)) dir,
        merge_change_room (d ∷ ds) ids n,
        push_new-contains (d ∷ ds) ids a,
        push_new_same_length (d ∷ ds) ids,
        read-write new raw dir law h,
      )

  -- Where the list is full and does not have the id, recording the deletion leaves the files as they
  -- are: the list keeps its length, which the code takes for no change.
  pub record_deletion_full :
      (read write : Io) (id : Text) (dir : Directory)
      → length (read_tombstone_file json read dir) ≡ max_tombstones
      → contains (read_tombstone_file json read dir) id ≡ false
      → record_deletion json read write id dir ≡ dir
  unfolding record_deletion merge_tombstones
  record_deletion_full read write id dir n h =
      rw
        (
          update_tombstones_lem read write (merge_change (id ∷ [])) dir,
          merge_change_full id (read_tombstone_file json read dir) n h,
        )
        refl
