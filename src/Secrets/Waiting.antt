-- ===== src/Secrets/Waiting.antt =====
-- src-tauri/src/store/credentials: the secrets that wait to be written.
use ai_usage_tracker.Prelude.{
  ℕ, ◌≡◌, true, false, some, List, [], ◌∷◌, Text, text_eq, text_eq_iff, inl, inr, Bool-cases, arith,
}
use ai_usage_tracker.Prelude.Maps.{lookup, insert, remove, lookup-insert, lookup-remove}
use ai_usage_tracker.Secrets.{
  CachedSecret, is_fresh, prune_secret_cache, remember_secret_with_state, is_dirty, remember_secret,
}

module _ {S : Type 0} where
  -- An entry that waits to be written outlives the time that entries are kept.
  pub lookup-prune_secret_cache :
      (id : Text) (now : ℕ) (cache : List (Text × CachedSecret S)) (entry : CachedSecret S)
      → lookup id cache ≡ some entry
      → entry.dirty ≡ true
      → lookup id (prune_secret_cache now cache) ≡ some entry
  unfolding lookup prune_secret_cache is_fresh
  lookup-prune_secret_cache id now [] entry h d = cc
  lookup-prune_secret_cache id now ((j, e) ∷ cache) entry h d = elim (Bool-cases (text_eq j id)) [
    | inl same ↦
        let first : e ≡ entry = ground (arith, same, h) in
        let kept : e.dirty ≡ true = rw first d in ground (arith, same, kept, first)
    | inr n ↦ ground (arith, n, lookup-prune_secret_cache id now cache entry)
  ]

  -- The account's secret is in the cache and waits to be written.
  pub record IsWaiting (id : Text) (secret : S) (cache : List (Text × CachedSecret S))
      : Type 0 where
    pub entry : CachedSecret S
    pub cached : lookup id cache ≡ some entry
    pub latest : entry.secret ≡ secret
    pub unwritten : entry.dirty ≡ true

  pub prune-IsWaiting :
      (id : Text) (secret : S) (now : ℕ) (cache : List (Text × CachedSecret S))
      → IsWaiting id secret cache
      → IsWaiting id secret (prune_secret_cache now cache)
  prune-IsWaiting id secret now cache w = record {
    entry = w.entry;
    cached = lookup-prune_secret_cache id now cache w.entry w.cached w.unwritten;
    latest = w.latest;
    unwritten = w.unwritten;
  }

  pub insert-IsWaiting :
      (id : Text) (secret : S) (j : Text) (e : CachedSecret S)
      (cache : List (Text × CachedSecret S))
      → text_eq j id ≡ false
      → IsWaiting id secret cache
      → IsWaiting id secret (insert j e cache)
  insert-IsWaiting id secret j e cache n w = record {
    entry = w.entry;
    cached = ground (arith, lookup-insert j id e cache, n, w.cached);
    latest = w.latest;
    unwritten = w.unwritten;
  }

  pub remove-IsWaiting :
      (id : Text) (secret : S) (j : Text) (cache : List (Text × CachedSecret S))
      → text_eq j id ≡ false
      → IsWaiting id secret cache
      → IsWaiting id secret (remove j cache)
  remove-IsWaiting id secret j cache n w = record {
    entry = w.entry;
    cached = ground (arith, lookup-remove j id cache, n, w.cached);
    latest = w.latest;
    unwritten = w.unwritten;
  }

  pub remember_secret-IsWaiting :
      (id : Text) (secret : S) (j : Text) (read : S) (now : ℕ)
      (cache : List (Text × CachedSecret S))
      → IsWaiting id secret cache
      → IsWaiting id secret (remember_secret j read now cache)
  unfolding remember_secret remember_secret_with_state is_dirty
  remember_secret-IsWaiting id secret j read now cache w =
      elim (Bool-cases (is_dirty (lookup j cache))) [
        | inl e ↦ rw (remember_secret, e) w
        | inr n ↦
            let other : text_eq j id ≡ false =
              ground (arith, text_eq_iff j id, n, w.cached, w.unwritten) in
            rw (remember_secret, n)
              (insert-IsWaiting id secret j _ (prune_secret_cache now cache) other
                (prune-IsWaiting id secret now cache w))
      ]
