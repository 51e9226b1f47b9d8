-- ===== src/Alerts/Evaluate.antt =====
-- src-tauri/src/store/alerts.rs: `evaluate`, which says what alerts an account's usage gives. A
-- `HashSet` of keys is a list without repetition, of which the code asks no order.
use ai_usage_tracker.Prelude.{
  ℕ, ◌+◌, ◌/◌, ◌%◌, Bool, true, false, not, ◌&&◌, ◌||◌, Option, none, some, List, [], ◌∷◌, ◌++◌,
  leb, ltb, ◌==◌, if◌then◌else◌, keep, Text, codes, text_eq, text_leb, contains, without, trim,
  eq_ignore_ascii_case, Result, ok,
}
use ai_usage_tracker.Prelude.Maps.{lookup, insert}
use ai_usage_tracker.Prelude.Split.{split_on, is_nonempty}
use ai_usage_tracker.Model.{
  Account, openai, provider_eq, UsageWindow, WindowKind, five_hour, weekly, monthly,
}
use ai_usage_tracker.JsonFile.{Codec, Write}
use ai_usage_tracker.Limits.{is_empty}
use ai_usage_tracker.Alerts.{
  AlertNotification, StoredUsageAlertSetting, AlertFile, AlertStore, AlertError, persist,
}

-- `WindowKind::as_str`
unfoldable pub as_str : WindowKind → Text
as_str five_hour = codes "five_hour"
as_str weekly = codes "weekly"
as_str monthly = codes "monthly"

unfoldable pub display_window_label : Text → Text
display_window_label window_id =
    if text_eq window_id (codes "five_hour")
    then codes "5 hour"
    else if text_eq window_id (codes "weekly")
    then codes "Weekly"
    else if text_eq window_id (codes "monthly")
    then codes "30-day"
    else codes "Usage"

-- A `u8` in decimal.
unfoldable pub decimal : ℕ → Text
decimal n =
    if ltb n 10
    then (48 + n) ∷ []
    else if ltb n 100
    then (48 + n / 10) ∷ (48 + n % 10) ∷ []
    else (48 + n / 100) ∷ (48 + (n / 10) % 10) ∷ (48 + n % 10) ∷ []

unfoldable pub strip_prefix : Text → Text → Option Text
strip_prefix [] s = some s
strip_prefix (p ∷ ps) [] = none
strip_prefix (p ∷ ps) (c ∷ cs) = if p == c then strip_prefix ps cs else none

-- What stands before the first " · ", if there is one.
unfoldable pub group_of : Text → Option Text
unfolding strip_prefix
group_of [] = none
group_of (c ∷ cs) = elim (strip_prefix (codes " · ") (c ∷ cs)) [
  | some _ ↦ some []
  | none ↦ elim (group_of cs) [ some group ↦ some (c ∷ group) | none ↦ none ]
]

unfoldable pub window_label : Text → Text → Text
unfolding group_of display_window_label
window_label window_id label = elim (group_of label) [
  | none ↦ display_window_label window_id
  | some group ↦
      if is_nonempty (trim group)
      then display_window_label window_id ++ codes " (" ++ trim group ++ codes ")"
      else display_window_label window_id
]

-- `HashSet::insert`
unfoldable pub insert_key : Text → List Text → List Text
insert_key key keys = if contains keys key then keys else key ∷ keys

unfoldable pub insert_sorted : Text → List Text → List Text
insert_sorted key [] = key ∷ []
insert_sorted key (k ∷ keys) = if text_leb key k then key ∷ k ∷ keys else k ∷ insert_sorted key keys

unfoldable pub sort_keys : List Text → List Text
unfolding insert_sorted
sort_keys [] = []
sort_keys (key ∷ keys) = insert_sorted key (sort_keys keys)

-- `join("|")`
unfoldable pub join_keys : List Text → Text
join_keys [] = []
join_keys (key ∷ []) = key
join_keys (key ∷ k ∷ keys) = key ++ b'|' ∷ join_keys (k ∷ keys)

unfoldable pub set_of : List Text → List Text
unfolding insert_key
set_of [] = []
set_of (key ∷ keys) = insert_key key (set_of keys)

unfoldable pub read_keys : Option Text → List Text
unfolding set_of
read_keys none = []
read_keys (some text) = set_of (keep is_nonempty (split_on (λ c. c == b'|') text))

unfoldable pub updated_key : List Text → Option Text
unfolding sort_keys join_keys
updated_key [] = none
updated_key (key ∷ keys) = some (join_keys (sort_keys (key ∷ keys)))

unfoldable pub same_key : Option Text → Option Text → Bool
same_key none none = true
same_key none (some b) = false
same_key (some a) none = false
same_key (some a) (some b) = text_eq a b

-- Is the legacy key there, and in the set?
unfoldable pub has_legacy : List Text → Option Text → Bool
has_legacy keys none = false
has_legacy keys (some legacy) = contains keys legacy

-- `remove` of the key, or else of the legacy key: the set, and whether one of them was in it.
unfoldable pub forget_key : Text → Option Text → List Text → List Text × Bool
forget_key key none keys = if contains keys key then (without key keys, true) else (keys, false)
forget_key key (some legacy) keys =
    if contains keys key
    then (without key keys, true)
    else if contains keys legacy
    then (without legacy keys, true)
    else (keys, false)

abbrev pub is_free : Option Text → Bool
is_free none = true
is_free (some plan) = eq_ignore_ascii_case plan (codes "free")

-- What the loop over the windows of one setting has so far.
pub record Progress : Type 0 where
  pub notified_keys : List Text
  pub notifications : List AlertNotification
  pub changed : Bool

module _ {F : Type 0} where
  unfoldable pub notification_key : StoredUsageAlertSetting → UsageWindow F → Text
  notification_key setting window = elim window.resets_at [
    | some period ↦ window.id ++ b':' ∷ period ++ b':' ∷ decimal setting.threshold_percent
    | none ↦ window.id ++ b':' ∷ decimal setting.threshold_percent
  ]

  unfoldable pub legacy_key : StoredUsageAlertSetting → UsageWindow F → Option Text
  legacy_key setting window = elim window.resets_at [
    | some period ↦ some (period ++ b':' ∷ decimal setting.threshold_percent)
    | none ↦ none
  ]

  unfoldable pub already_notified : StoredUsageAlertSetting → UsageWindow F → List Text → Bool
  unfolding has_legacy
  already_notified setting window keys =
      contains keys (notification_key setting window) || has_legacy keys (legacy_key setting window)

  -- A window whose percentage is known.
  unfoldable pub evaluate_remaining :
      StoredUsageAlertSetting → UsageWindow F → ℕ → Progress → Progress
  unfolding forget_key insert_key window_label
  evaluate_remaining setting window remaining p =
      let key = notification_key setting window in
      let notification : AlertNotification = record {
        window_label = window_label setting.window_id window.label;
        remaining_percent = remaining;
        threshold_percent = setting.threshold_percent;
      } in
      let (keys, removed) = forget_key key (legacy_key setting window) p.notified_keys in
      if leb remaining setting.threshold_percent
      then if already_notified setting window p.notified_keys then p else record {
        notified_keys = insert_key key p.notified_keys;
        notifications = p.notifications ++ notification ∷ [];
        changed = true;
      }
      else if removed
      then record { notified_keys = keys; notifications = p.notifications; changed = true }
      else p

  -- `canonical_window_id(window) == Some(window_id)`
  unfoldable pub has_kind : Text → UsageWindow F → Bool
  unfolding as_str
  has_kind window_id window = elim window.kind [
    | none ↦ false
    | some kind ↦ text_eq (as_str kind) window_id
  ]

  unfoldable pub is_matching : Account F → StoredUsageAlertSetting → UsageWindow F → Bool
  unfolding has_kind
  is_matching account setting window =
      has_kind setting.window_id window
      || (provider_eq account.provider openai
          && (text_eq setting.window_id (codes "monthly")
              && (is_free account.plan
                  && (text_eq window.id (codes "session") || text_eq window.id (codes "monthly")))))

module _ {F : Type 0} (rounded : F → Option ℕ) where
  unfoldable pub evaluate_window : StoredUsageAlertSetting → UsageWindow F → Progress → Progress
  evaluate_window setting window p = elim window.remaining_percent [
    | none ↦ p
    | some value ↦ elim (rounded value) [
      | none ↦ p
      | some remaining ↦ evaluate_remaining setting window remaining p
    ]
  ]

  unfoldable pub evaluate_windows :
      StoredUsageAlertSetting → List (UsageWindow F) → Progress → Progress
  evaluate_windows setting [] p = p
  evaluate_windows setting (w ∷ ws) p = evaluate_windows setting ws (evaluate_window setting w p)

  -- One setting: what it becomes, its notifications, and whether it has changed.
  unfoldable pub evaluate_setting :
      Account F
      → List (UsageWindow F)
      → StoredUsageAlertSetting
      → StoredUsageAlertSetting × List AlertNotification × Bool
  unfolding is_matching read_keys updated_key same_key
  evaluate_setting account windows setting =
      let matching = keep (is_matching account setting) windows in
      let p = evaluate_windows setting matching (record {
        notified_keys = read_keys setting.last_notified_key;
        notifications = [];
        changed = false;
      }) in
      let key = updated_key p.notified_keys in
      if not setting.enabled || is_empty matching
      then (setting, [], false)
      else if same_key setting.last_notified_key key
      then (setting, p.notifications, p.changed)
      else (record setting { last_notified_key = key }, p.notifications, true)

  unfoldable pub evaluate_settings :
      Account F
      → List (UsageWindow F)
      → List StoredUsageAlertSetting
      → List StoredUsageAlertSetting × List AlertNotification × Bool
  evaluate_settings account windows [] = ([], [], false)
  evaluate_settings account windows (setting ∷ settings) =
      let (first, notes, changed) = evaluate_setting account windows setting in
      let (rest, more, changes) = evaluate_settings account windows settings in
      (first ∷ rest, notes ++ more, changed || changes)

  unfoldable pub evaluate :
      {P : Type 0}
      → Codec AlertFile P
      → Write
      → Account F
      → AlertStore P
      → AlertStore P × Result AlertError (List AlertNotification)
  evaluate json io account s = elim account.last_usage [
    | none ↦ (s, ok [])
    | some usage ↦ elim (lookup account.id s.accounts) [
      | none ↦ (s, ok [])
      | some settings ↦
          let (settings', notifications, changed) =
            evaluate_settings account usage.windows settings in
          let accounts = insert account.id settings' s.accounts in
          if changed
          then persist json io accounts notifications s
          else (record s { accounts = accounts }, ok notifications)
    ]
  ]
