-- ===== src/Sanitize/Bounds.antt =====
-- src-tauri/src/limits.rs: what an imported account is brought within, and which accounts are left
-- as they are.
use ai_usage_tracker.Prelude.{
  ℕ, ◌≡◌, ◌≤◌, suc, refl, Bool, true, false, Option, none, some, List, [], ◌∷◌, map, length, take,
  length-take, All, Text, trim, arith, inl, inr, Bool-cases, if◌then◌else◌,
}
use ai_usage_tracker.Model.{
  Account, Provider, UsageWindow, UsageSnapshot, display_name, openai, anthropic, antigravity,
  google_ai_studio, grok, opencode_go,
}
use ai_usage_tracker.Limits.{
  clamp_chars, length-clamp_chars, is_empty, max_label_chars, max_email_chars, max_identity_chars,
  max_timestamp_chars, max_status_message_chars, max_usage_windows, max_window_text_chars,
}
use ai_usage_tracker.Sanitize.{
  clamp_option, finite_or_none, sanitize_window, sanitize_usage, sanitize_last_usage,
  sanitize_imported_account,
}

-- A text that is there has at most this many characters.
abbrev pub AtMost : ℕ → Option Text → Type 0
AtMost n none = Unit {0}
AtMost n (some text) = length text ≤ n

module _ {F : Type 0} (is_finite : F → Bool) where
  abbrev pub IsFinite : Option F → Type 0
  IsFinite none = Unit {0}
  IsFinite (some number) = is_finite number ≡ true

  pub record WindowWithin (w : UsageWindow F) : Type 0 where
    pub id : length w.id ≤ max_window_text_chars
    pub label : length w.label ≤ max_window_text_chars
    pub resets_at : AtMost max_timestamp_chars w.resets_at
    pub used_percent : IsFinite w.used_percent
    pub remaining_percent : IsFinite w.remaining_percent

  pub record UsageWithin (u : UsageSnapshot F) : Type 0 where
    pub plan : AtMost max_identity_chars u.plan
    pub email : AtMost max_email_chars u.email
    pub fetched_at : length u.fetched_at ≤ max_timestamp_chars
    pub source : length u.source ≤ max_identity_chars
    pub credits_usd : IsFinite u.credits_usd
    pub count : length u.windows ≤ max_usage_windows
    pub windows : All WindowWithin u.windows

  abbrev pub LastUsageWithin : Option (UsageSnapshot F) → Type 0
  LastUsageWithin none = Unit {0}
  LastUsageWithin (some usage) = UsageWithin usage

  pub record AccountWithin (a : Account F) : Type 0 where
    pub named : is_empty a.label ≡ false
    pub label : length a.label ≤ max_label_chars
    pub email : AtMost max_email_chars a.email
    pub provider_account_id : AtMost max_identity_chars a.provider_account_id
    pub chatgpt_account_id : AtMost max_identity_chars a.chatgpt_account_id
    pub plan : AtMost max_identity_chars a.plan
    pub created_at : length a.created_at ≤ max_timestamp_chars
    pub updated_at : length a.updated_at ≤ max_timestamp_chars
    pub last_error : AtMost max_status_message_chars a.last_error
    pub last_usage : LastUsageWithin a.last_usage

  clamp_option-AtMost : (n : ℕ) (o : Option Text) → AtMost n (clamp_option n o)
  unfolding clamp_option
  clamp_option-AtMost n none = tt
  clamp_option-AtMost n (some text) = length-clamp_chars n text

  finite_or_none-IsFinite : (o : Option F) → IsFinite (finite_or_none is_finite o)
  unfolding finite_or_none
  finite_or_none-IsFinite none = tt
  finite_or_none-IsFinite (some number) = elim (Bool-cases (is_finite number)) [
    | inl e ↦ rw e e
    | inr n ↦ rw n tt
  ]

  sanitize_window-WindowWithin : (w : UsageWindow F) → WindowWithin (sanitize_window is_finite w)
  unfolding sanitize_window
  sanitize_window-WindowWithin w = record {
    id = length-clamp_chars max_window_text_chars w.id;
    label = length-clamp_chars max_window_text_chars w.label;
    resets_at = clamp_option-AtMost max_timestamp_chars w.resets_at;
    used_percent = finite_or_none-IsFinite w.used_percent;
    remaining_percent = finite_or_none-IsFinite w.remaining_percent;
  }

  map-WindowWithin :
      (ws : List (UsageWindow F)) → All WindowWithin (map (sanitize_window is_finite) ws)
  map-WindowWithin [] = tt
  map-WindowWithin (w ∷ ws) = (sanitize_window-WindowWithin w, map-WindowWithin ws)

  length-map_windows :
      (ws : List (UsageWindow F)) → length (map (sanitize_window is_finite) ws) ≡ length ws
  length-map_windows [] = refl
  length-map_windows (w ∷ ws) = omega (arith, length-map_windows ws)

  sanitize_usage-UsageWithin : (u : UsageSnapshot F) → UsageWithin (sanitize_usage is_finite u)
  unfolding sanitize_usage
  sanitize_usage-UsageWithin u = record {
    plan = clamp_option-AtMost max_identity_chars u.plan;
    email = clamp_option-AtMost max_email_chars u.email;
    fetched_at = length-clamp_chars max_timestamp_chars u.fetched_at;
    source = length-clamp_chars max_identity_chars u.source;
    credits_usd = finite_or_none-IsFinite u.credits_usd;
    count = omega (
      arith,
      length-map_windows (take max_usage_windows u.windows),
      length-take max_usage_windows u.windows,
    );
    windows = map-WindowWithin (take max_usage_windows u.windows);
  }

  sanitize_last_usage-LastUsageWithin :
      (o : Option (UsageSnapshot F)) → LastUsageWithin (sanitize_last_usage is_finite o)
  unfolding sanitize_last_usage
  sanitize_last_usage-LastUsageWithin none = tt
  sanitize_last_usage-LastUsageWithin (some u) = sanitize_usage-UsageWithin u

  display_name-nonempty : (p : Provider) → is_empty (display_name p) ≡ false
  display_name-nonempty openai = refl
  display_name-nonempty anthropic = refl
  display_name-nonempty antigravity = refl
  display_name-nonempty google_ai_studio = refl
  display_name-nonempty grok = refl
  display_name-nonempty opencode_go = refl

  clamp_nonempty :
      (n : ℕ) (text : Text) → is_empty text ≡ false → is_empty (clamp_chars (suc n) text) ≡ false
  unfolding clamp_chars
  clamp_nonempty n [] h = h
  clamp_nonempty n (c ∷ cs) h = refl

  label_nonempty :
      (p : Provider) (label : Text)
      → is_empty (if is_empty (trim label) then display_name p else trim label) ≡ false
  label_nonempty p label = elim (Bool-cases (is_empty (trim label))) [
    | inl e ↦ rw e (display_name-nonempty p)
    | inr n ↦ rw (n) n
  ]

  -- Whatever a peer sends, the account is brought within the bounds of one made here: it has a name,
  -- its texts have at most their numbers of characters, and its usage at most 32 windows and only
  -- finite numbers.
  pub sanitize_imported_account-AccountWithin :
      (a : Account F) → AccountWithin (sanitize_imported_account is_finite a)
  unfolding sanitize_imported_account
  sanitize_imported_account-AccountWithin a = record {
    named = clamp_nonempty 79 _ (label_nonempty a.provider a.label);
    label = length-clamp_chars max_label_chars _;
    email = clamp_option-AtMost max_email_chars a.email;
    provider_account_id = clamp_option-AtMost max_identity_chars a.provider_account_id;
    chatgpt_account_id = clamp_option-AtMost max_identity_chars a.chatgpt_account_id;
    plan = clamp_option-AtMost max_identity_chars a.plan;
    created_at = length-clamp_chars max_timestamp_chars a.created_at;
    updated_at = length-clamp_chars max_timestamp_chars a.updated_at;
    last_error = clamp_option-AtMost max_status_message_chars a.last_error;
    last_usage = sanitize_last_usage-LastUsageWithin a.last_usage;
  }
