-- ===== src/JsonFile.antt =====
-- src-tauri/src/store/json_file.rs: the file behind the small stores, with atomic_write_private of
-- src-tauri/src/platform/fs_util.rs. The file holds a payload `P` or is missing; the serializer is a
-- parameter, and arguments say how the accesses to the disk end. Permissions leave no trace here but
-- the failure of the calls that repair them.
use ai_usage_tracker.Prelude.{◌≡◌, Option, none, some, Text, Result, ok, err, ◌>>=◌}

-- serde_json, on one type of values.
pub record Codec (T P : Type 0) : Type 0 where
  pub to_vec_pretty : T → Result Text P
  pub from_str : P → Result Text T

-- What is written is read back, as far as `view` shows.
pub record ReadsBack {T P E : Type 0} (json : Codec T P) (view : T → E) : Type 0 where
  pub from_str-to_vec_pretty :
      (v : T) (p : P)
      → json.to_vec_pretty v ≡ ok p
      → (w : T) × (json.from_str p ≡ ok w) × (view w ≡ view v)

-- How an access to the file system ends.
abbrev pub Io : Type 0
Io = Result Text (Unit {0})

-- How a write ends: all that leads up to the rename with the rename itself, and the repair of the
-- permissions that follows it.
pub record Write : Type 0 where
  pub replaced : Io
  pub hardened : Io

pub record JsonFile (P : Type 0) : Type 0 where
  pub contents : Option P

-- `atomic_write_private`. An error of the last call leaves the new contents.
unfoldable pub atomic_write_private : {P : Type 0} → Write → JsonFile P → P → JsonFile P × Io
atomic_write_private write file p = elim write.replaced [
  | err e ↦ (file, err e)
  | ok _ ↦ (record { contents = some p }, write.hardened)
]

module _ {T P : Type 0} (json : Codec T P) where
  -- `default` is `T::default()`; `dir` and `private` are the two calls that repair permissions.
  unfoldable pub open_file : Io → Io → Io → T → JsonFile P → Result Text (JsonFile P × T)
  open_file dir read private default file = dir >>= λ _. elim file.contents [
    | none ↦ ok (file, default)
    | some p ↦ read >>= λ _. json.from_str p >>= λ v. private >>= λ _. ok (file, v)
  ]

  unfoldable pub save_file : Write → JsonFile P → T → JsonFile P × Io
  unfolding atomic_write_private
  save_file write file v = elim (json.to_vec_pretty v) [
    | ok p ↦ atomic_write_private write file p
    | err e ↦ (file, err e)
  ]
