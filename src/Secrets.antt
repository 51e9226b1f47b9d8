-- ===== src/Secrets.antt =====
-- src-tauri/src/store/credentials: the sign-ins of the accounts, cached in memory in front of the
-- platform's own store (cache.rs, and the parts of mod.rs that no platform changes). The platform's
-- store is a map from account ids to secrets; a call of it does its work, or reports an error and
-- leaves the map as it was. `S` stands for `ProviderSecret`, `same_secret` for its derived `==`, and
-- times are in nanoseconds. The zeroing of dropped secrets leaves no trace here.
pub mod Waiting
pub mod Unsaved
use ai_usage_tracker.Prelude.{
  ℕ, ◌*◌, ◌-◌, Bool, true, false, not, ◌&&◌, ◌||◌, Option, none, some, List, [], ◌∷◌, ltb,
  if◌then◌else◌, Text, codes, text_eq, Result, ok, err,
}
use ai_usage_tracker.Prelude.Maps.{lookup, insert, remove}
use ai_usage_tracker.Limits.{is_valid_account_id}
use ai_usage_tracker.Backoff.{second}
use ai_usage_tracker.Accounts.{StoreError, credential, invalid}

abbrev pub secret_cache_ttl : ℕ
secret_cache_ttl = 300 * second

pub record CachedSecret (S : Type 0) : Type 0 where
  pub secret : S
  pub cached_at : ℕ
  -- Not yet written to the platform's store.
  pub dirty : Bool

pub record SecretStore (S : Type 0) : Type 0 where
  pub cache : List (Text × CachedSecret S)
  -- The platform's store.
  pub vault : List (Text × S)

-- `check_account_id`
unfoldable pub check_account_id : Text → Result StoreError (Unit {0})
check_account_id id =
    if is_valid_account_id id then ok tt else err (invalid (codes "invalid account id"))

module _ {S : Type 0} where
  unfoldable pub is_fresh : ℕ → CachedSecret S → Bool
  is_fresh now entry = entry.dirty || ltb (now - entry.cached_at) secret_cache_ttl

  unfoldable pub prune_secret_cache :
      ℕ → List (Text × CachedSecret S) → List (Text × CachedSecret S)
  prune_secret_cache now [] = []
  prune_secret_cache now ((id, entry) ∷ cache) =
      if is_fresh now entry
      then (id, entry) ∷ prune_secret_cache now cache
      else prune_secret_cache now cache

  unfoldable pub cached_secret : Text → ℕ → List (Text × CachedSecret S) → Option S
  unfolding prune_secret_cache
  cached_secret id now cache = elim (lookup id (prune_secret_cache now cache)) [
    | some entry ↦ some entry.secret
    | none ↦ none
  ]

  unfoldable pub remember_secret_with_state :
      Text → S → Bool → ℕ → List (Text × CachedSecret S) → List (Text × CachedSecret S)
  remember_secret_with_state id secret dirty now cache =
      insert id (record { secret = secret; cached_at = now; dirty = dirty })
        (prune_secret_cache now cache)

  unfoldable pub is_dirty : Option (CachedSecret S) → Bool
  is_dirty none = false
  is_dirty (some entry) = entry.dirty

  unfoldable pub remember_secret :
      Text → S → ℕ → List (Text × CachedSecret S) → List (Text × CachedSecret S)
  unfolding is_dirty
  remember_secret id secret now cache =
      if is_dirty (lookup id cache)
      then cache
      else remember_secret_with_state id secret false now cache

  module _ (same_secret : S → S → Bool) where
    unfoldable pub is_clean_entry : S → Option (CachedSecret S) → Bool
    is_clean_entry secret none = false
    is_clean_entry secret (some entry) = not entry.dirty && same_secret entry.secret secret

    unfoldable pub cached_secret_is_clean : Text → S → ℕ → List (Text × CachedSecret S) → Bool
    unfolding is_clean_entry
    cached_secret_is_clean id secret now cache =
        is_clean_entry secret (lookup id (prune_secret_cache now cache))

    -- The change of the entry in place is the insertion of the changed entry.
    unfoldable pub mark_secret_clean :
        Text → S → ℕ → List (Text × CachedSecret S) → List (Text × CachedSecret S)
    mark_secret_clean id secret now cache = elim (lookup id cache) [
      | none ↦ cache
      | some entry ↦
          if same_secret entry.secret secret
          then insert id (record entry { dirty = false; cached_at = now }) cache
          else cache
    ]

    -- `save_provider_secret_with`, with `io` for how the write to the platform's store ends.
    unfoldable pub save_provider_secret :
        Result StoreError (Unit {0})
        → Text
        → S
        → ℕ
        → SecretStore S
        → SecretStore S × Result StoreError (Unit {0})
    save_provider_secret io id secret now s = elim (check_account_id id) [
      | err e ↦ (s, err e)
      | ok _ ↦
          let pruned = prune_secret_cache now s.cache in
          let waiting = remember_secret_with_state id secret true now pruned in
          if cached_secret_is_clean id secret now s.cache
          then (record s { cache = pruned }, ok tt)
          else elim io [
            | err e ↦ (record s { cache = waiting }, err e)
            | ok _ ↦ (
              record {
                cache = mark_secret_clean id secret now waiting;
                vault = insert id secret s.vault;
              },
              ok tt,
            )
          ]
    ]

  -- What the platform's store answers, if the access works.
  unfoldable pub read_vault :
      Result StoreError (Unit {0}) → Text → SecretStore S → Result StoreError S
  read_vault io id s = elim io [
    | err e ↦ err e
    | ok _ ↦ elim (lookup id s.vault) [
      | some secret ↦ ok secret
      | none ↦ err (credential (codes "No matching entry found in secure storage"))
    ]
  ]

  unfoldable pub load_provider_secret :
      Result StoreError (Unit {0}) → Text → ℕ → SecretStore S → SecretStore S × Result StoreError S
  unfolding read_vault
  load_provider_secret io id now s = elim (check_account_id id) [
    | err e ↦ (s, err e)
    | ok _ ↦
        let pruned = prune_secret_cache now s.cache in
        elim (cached_secret id now s.cache) [
          | some secret ↦ (record s { cache = pruned }, ok secret)
          | none ↦ elim (read_vault io id s) [
            | err e ↦ (record s { cache = pruned }, err e)
            | ok secret ↦ (record s { cache = remember_secret id secret now pruned }, ok secret)
          ]
        ]
  ]

  -- `delete_secret`: the cached secret is forgotten also when the platform's store fails to delete.
  unfoldable pub delete_secret :
      Result StoreError (Unit {0})
      → Text
      → SecretStore S
      → SecretStore S × Result StoreError (Unit {0})
  delete_secret io id s =
      let cache = remove id s.cache in
      if is_valid_account_id id
      then elim io [
        | ok _ ↦ (record { cache = cache; vault = remove id s.vault }, ok tt)
        | err e ↦ (record s { cache = cache }, err e)
      ]
      else (record s { cache = cache }, ok tt)

-- The calls that a history is made of, with how the platform's store answers each, and when.
pub data Call (S : Type 0) : Type 0 where
  saves : Result StoreError (Unit {0}) → Text → S → ℕ → Call S
  loads : Result StoreError (Unit {0}) → Text → ℕ → Call S
  deletes : Result StoreError (Unit {0}) → Text → Call S

module _ {S : Type 0} (same_secret : S → S → Bool) where
  unfoldable pub step : Call S → SecretStore S → SecretStore S
  step (saves io id secret now) s = (save_provider_secret same_secret io id secret now s).0
  step (loads io id now) s = (load_provider_secret io id now s).0
  step (deletes io id) s = (delete_secret io id s).0

  unfoldable pub run : List (Call S) → SecretStore S → SecretStore S
  run [] s = s
  run (c ∷ cs) s = run cs (step c s)
