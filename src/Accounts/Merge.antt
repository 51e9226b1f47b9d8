-- ===== src/Accounts/Merge.antt =====
-- src-tauri/src/store/accounts.rs: `merge_account` and `newer_usage`.
use ai_usage_tracker.Prelude.{
  ◌≡◌, refl, Bool, true, false, Bool-cases, ◌⊎◌, inl, inr, Option, none, some, text_leb,
  if◌then◌else◌, text_leb_refl, text_leb_total,
}
use ai_usage_tracker.Model.{Account, UsageSnapshot}

-- `if incoming.is_some() { *existing = incoming }`
abbrev pub or_keep : {A : Type 0} → Option A → Option A → Option A
or_keep existing none = existing
or_keep existing (some a) = some a

module _ {F : Type 0} where
  unfoldable pub newer_usage :
      Option (UsageSnapshot F) → Option (UsageSnapshot F) → Option (UsageSnapshot F)
  newer_usage none incoming = incoming
  newer_usage (some left) none = some left
  newer_usage (some left) (some right) =
      if text_leb left.fetched_at right.fetched_at then some right else some left

  unfoldable pub merge_account : Account F → Account F → Account F
  merge_account existing incoming = record existing {
    label = incoming.label;
    provider = incoming.provider;
    email = or_keep existing.email incoming.email;
    provider_account_id = or_keep existing.provider_account_id incoming.provider_account_id;
    chatgpt_account_id = or_keep existing.chatgpt_account_id incoming.chatgpt_account_id;
    plan = or_keep existing.plan incoming.plan;
    auth_required = incoming.auth_required;
    last_error = incoming.last_error;
    last_usage = newer_usage existing.last_usage incoming.last_usage;
  }

  -- A snapshot is no older than another, and is there if the other is.
  unfoldable pub no_older : Option (UsageSnapshot F) → Option (UsageSnapshot F) → Bool
  no_older none new = true
  no_older (some old) none = false
  no_older (some old) (some new) = text_leb old.fetched_at new.fetched_at

  -- What `newer_usage` keeps is one of the two snapshots and no older than either.
  pub newer_usage_lem :
      (existing incoming : Option (UsageSnapshot F))
      → (no_older existing (newer_usage existing incoming) ≡ true)
        × (no_older incoming (newer_usage existing incoming) ≡ true)
        × ((newer_usage existing incoming ≡ existing) ⊎ (newer_usage existing incoming ≡ incoming))
  unfolding newer_usage no_older
  newer_usage_lem none none = (refl, refl, inl refl)
  newer_usage_lem none (some right) = (refl, text_leb_refl right.fetched_at, inr refl)
  newer_usage_lem (some left) none = (text_leb_refl left.fetched_at, refl, inl refl)
  newer_usage_lem (some left) (some right) =
      elim (Bool-cases (text_leb left.fetched_at right.fetched_at)) [
        | inl e ↦ rw e (e, text_leb_refl right.fetched_at, inr refl)
        | inr n ↦ rw n (
          text_leb_refl left.fetched_at,
          text_leb_total left.fetched_at right.fetched_at n,
          inl refl,
        )
      ]
