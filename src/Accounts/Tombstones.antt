-- ===== src/Accounts/Tombstones.antt =====
-- src-tauri/src/store/accounts.rs: the ids of the accounts that were deleted, so that a peer does
-- not bring them back. A failed read or write of the list is logged and goes no further.
use ai_usage_tracker.Prelude.{
  ℕ, ◌-◌, Bool, true, false, not, none, some, List, [], ◌∷◌, ◌++◌, ltb, ◌==◌, if◌then◌else◌, length,
  drop, Text, contains, without, ok, err,
}
use ai_usage_tracker.JsonFile.{Codec, Io}
use ai_usage_tracker.Accounts.{Directory}

abbrev pub max_tombstones : ℕ
max_tombstones = 500

pub record TombstoneFile : Type 0 where
  pub deleted_account_ids : List Text

-- The loop of `merge_tombstones`.
unfoldable pub push_new : List Text → List Text → List Text
push_new ids [] = ids
push_new ids (id ∷ deleted_ids) =
    push_new (if contains ids id then ids else ids ++ id ∷ []) deleted_ids

-- `if ids.len() > MAX_TOMBSTONES { ids.drain(..excess) }`
unfoldable pub drop_oldest : List Text → List Text
drop_oldest ids =
    if ltb max_tombstones (length ids) then drop (length ids - max_tombstones) ids else ids

-- The closures given to `update_tombstones`: the new list, and whether it is to be saved.
unfoldable pub merge_change : List Text → List Text → List Text × Bool
unfolding push_new drop_oldest
merge_change deleted_ids ids =
    let merged = drop_oldest (push_new ids deleted_ids) in
    (merged, not (length merged == length ids))

unfoldable pub clear_one_change : Text → List Text → List Text × Bool
clear_one_change id ids = let rest = without id ids in (rest, not (length rest == length ids))

unfoldable pub clear_all_change : List Text → List Text × Bool
clear_all_change ids = elim ids [ [] ↦ ([], false) | _ ∷ _ ↦ ([], true) ]

-- The closure of `load`: the ids of live accounts go.
unfoldable pub without_live : List Text → List Text → List Text
without_live live [] = []
without_live live (id ∷ ids) =
    if contains live id then without_live live ids else id ∷ without_live live ids

module _ (json : Codec TombstoneFile Text) where
  -- The default where there is no file, it cannot be read, or it does not parse.
  unfoldable pub read_tombstone_file : Io → Directory → List Text
  read_tombstone_file read dir = elim dir.tombstone_path [
    | none ↦ []
    | some raw ↦ elim read [
      | err _ ↦ []
      | ok _ ↦ elim (json.from_str raw) [ ok file ↦ file.deleted_account_ids | err _ ↦ [] ]
    ]
  ]

  -- Its callers drop the result. `write` is how all up to the rename of the new file ends.
  unfoldable pub write_tombstone_file : Io → List Text → Directory → Directory
  write_tombstone_file write ids dir =
      elim (json.to_vec_pretty (record { deleted_account_ids = ids })) [
        | err _ ↦ dir
        | ok raw ↦ elim write [ ok _ ↦ record dir { tombstone_path = some raw } | err _ ↦ dir ]
      ]

  unfoldable pub update_tombstones :
      Io → Io → (List Text → List Text × Bool) → Directory → Directory
  unfolding read_tombstone_file write_tombstone_file
  update_tombstones read write change dir =
      let (ids, changed) = change (read_tombstone_file read dir) in
      if changed then write_tombstone_file write ids dir else dir

  unfoldable pub merge_tombstones : Io → Io → List Text → Directory → Directory
  merge_tombstones read write [] dir = dir
  merge_tombstones read write (id ∷ deleted_ids) dir =
      update_tombstones read write (merge_change (id ∷ deleted_ids)) dir

  unfoldable pub clear_tombstone : Io → Io → Text → Directory → Directory
  clear_tombstone read write id dir = update_tombstones read write (clear_one_change id) dir

  unfoldable pub clear_tombstones : Io → Io → Directory → Directory
  clear_tombstones read write dir = update_tombstones read write clear_all_change dir

  unfoldable pub record_deletion : Io → Io → Text → Directory → Directory
  record_deletion read write id dir = merge_tombstones read write (id ∷ []) dir

  -- The block of `load` that takes live accounts off the list.
  unfoldable pub prune_tombstones : Io → Io → List Text → Directory → Directory
  unfolding without_live
  prune_tombstones read write live dir =
      let ids = read_tombstone_file read dir in
      let rest = without_live live ids in
      if length rest == length ids then dir else write_tombstone_file write rest dir
