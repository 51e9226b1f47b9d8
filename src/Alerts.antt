-- ===== src/Alerts.antt =====
-- src-tauri/src/store/alerts.rs: the alerts on low usage. The percentages are `f64` values: `rounded`
-- is a parameter that gives `value.clamp(0.0, 100.0).round() as u8` of a finite value and nothing of
-- another. A `HashSet` of keys is a list without repetition.
pub mod Evaluate
pub mod Settings
use ai_usage_tracker.Prelude.{
  ℕ, ◌+◌, ◌≡◌, Bool, true, false, not, ◌&&◌, ◌||◌, Option, none, some, List, [], ◌∷◌, ◌++◌, map,
  leb, ltb, ◌==◌, if◌then◌else◌, length, keep, Text, codes, text_eq, text_leb, contains, without,
  to_set, trim, eq_ignore_ascii_case, Result, ok, err,
}
use ai_usage_tracker.Prelude.Maps.{lookup, insert, remove}
use ai_usage_tracker.Prelude.Split.{split_on, is_nonempty}
use ai_usage_tracker.Model.{
  Account, Provider, openai, provider_eq, UsageWindow, WindowKind, five_hour, weekly, monthly,
}
use ai_usage_tracker.JsonFile.{Codec, Io, Write, JsonFile, open_file, save_file}
use ai_usage_tracker.Limits.{is_empty}

abbrev pub alert_window_ids : List Text
alert_window_ids = codes "five_hour" ∷ codes "weekly" ∷ codes "monthly" ∷ []

pub record UsageAlertSetting : Type 0 where
  pub window_id : Text
  pub enabled : Bool
  pub threshold_percent : ℕ

pub record AlertNotification : Type 0 where
  pub window_label : Text
  pub remaining_percent : ℕ
  pub threshold_percent : ℕ

pub record StoredUsageAlertSetting : Type 0 where
  pub window_id : Text
  pub enabled : Bool
  pub threshold_percent : ℕ
  pub last_notified_key : Option Text

pub record AlertFile : Type 0 where
  pub version : ℕ
  pub accounts : List (Text × List StoredUsageAlertSetting)

pub record AlertStore (P : Type 0) : Type 0 where
  pub file : JsonFile P
  pub accounts : List (Text × List StoredUsageAlertSetting)

pub data AlertError : Type 0 where
  too_many : AlertError
  unsupported : Text → AlertError
  duplicate : Text → AlertError
  out_of_range : AlertError
  file_error : Text → AlertError

-- `position(..).unwrap_or(ALERT_WINDOW_IDS.len())`
unfoldable pub position : List Text → Text → ℕ
position [] id = 0
position (candidate ∷ ids) id = if text_eq candidate id then 0 else 1 + position ids id

unfoldable pub insert_setting : {T : Type 0} → (T → Text) → T → List T → List T
unfolding position
insert_setting window_id t [] = t ∷ []
insert_setting window_id t (x ∷ xs) =
    if leb (position alert_window_ids (window_id t)) (position alert_window_ids (window_id x))
    then t ∷ x ∷ xs
    else x ∷ insert_setting window_id t xs

-- `sort_by_key`, which is stable.
unfoldable pub sort_settings : {T : Type 0} → (T → Text) → List T → List T
unfolding insert_setting
sort_settings window_id [] = []
sort_settings window_id (t ∷ ts) = insert_setting window_id t (sort_settings window_id ts)

unfoldable pub public_setting : StoredUsageAlertSetting → UsageAlertSetting
public_setting setting = record {
  window_id = setting.window_id;
  enabled = setting.enabled;
  threshold_percent = setting.threshold_percent;
}

abbrev pub or_empty : {A : Type 0} → Option (List A) → List A
or_empty none = []
or_empty (some xs) = xs

unfoldable pub get_settings :
    Text → List (Text × List StoredUsageAlertSetting) → List UsageAlertSetting
unfolding sort_settings public_setting
get_settings account_id accounts =
    sort_settings (λ s. s.window_id) (map public_setting (or_empty (lookup account_id accounts)))

-- The loop over the settings to save, with the window ids seen so far.
unfoldable pub check_settings : List Text → List UsageAlertSetting → Result AlertError (Unit {0})
check_settings seen [] = ok tt
check_settings seen (setting ∷ settings) =
    let rest = check_settings (setting.window_id ∷ seen) settings in
    if not (contains alert_window_ids setting.window_id)
    then err (unsupported setting.window_id)
    else if contains seen setting.window_id
    then err (duplicate setting.window_id)
    else if not (leb 1 setting.threshold_percent && leb setting.threshold_percent 100)
    then err out_of_range
    else rest

unfoldable pub bool_eq : Bool → Bool → Bool
bool_eq true b = b
bool_eq false b = not b

-- The key that a setting keeps: that of an equal setting that is stored.
unfoldable pub previous_key : UsageAlertSetting → List StoredUsageAlertSetting → Option Text
unfolding bool_eq
previous_key setting [] = none
previous_key setting (candidate ∷ existing) =
    if text_eq candidate.window_id setting.window_id
      && (bool_eq candidate.enabled setting.enabled
          && candidate.threshold_percent == setting.threshold_percent)
    then candidate.last_notified_key
    else previous_key setting existing

unfoldable pub stored_setting :
    List StoredUsageAlertSetting → UsageAlertSetting → StoredUsageAlertSetting
unfolding previous_key
stored_setting existing setting = record {
  window_id = setting.window_id;
  enabled = setting.enabled;
  threshold_percent = setting.threshold_percent;
  last_notified_key = previous_key setting existing;
}

unfoldable pub store_settings :
    Text
    → List UsageAlertSetting
    → List (Text × List StoredUsageAlertSetting)
    → List (Text × List StoredUsageAlertSetting)
unfolding stored_setting sort_settings
store_settings account_id settings accounts =
    let stored =
      sort_settings (λ s. s.window_id)
        (map (stored_setting (or_empty (lookup account_id accounts))) settings) in
    if is_empty stored then remove account_id accounts else insert account_id stored accounts

module _ {P : Type 0} (json : Codec AlertFile P) where
  unfoldable pub load : Io → Io → Io → JsonFile P → Result Text (AlertStore P)
  unfolding open_file
  load dir read private file =
      elim (open_file json dir read private (record { version = 0; accounts = [] }) file) [
        | ok (f, saved) ↦ ok (record { file = f; accounts = saved.accounts })
        | err e ↦ err e
      ]

  -- The settings are changed in memory, and then written; `a` is returned if the write succeeds.
  unfoldable pub persist :
      {A : Type 0}
      → Write
      → List (Text × List StoredUsageAlertSetting)
      → A
      → AlertStore P
      → AlertStore P × Result AlertError A
  unfolding save_file
  persist io accounts a s =
      let (f, result) = save_file json io s.file (record { version = 1; accounts = accounts }) in
      (
        record { file = f; accounts = accounts },
        elim result [ ok _ ↦ ok a | err e ↦ err (file_error e) ],
      )

  unfoldable pub save :
      Write
      → Text
      → List UsageAlertSetting
      → AlertStore P
      → AlertStore P × Result AlertError (List UsageAlertSetting)
  unfolding check_settings store_settings
  save io account_id settings s =
      if ltb (length alert_window_ids) (length settings)
      then (s, err too_many)
      else elim (check_settings [] settings) [
        | err e ↦ (s, err e)
        | ok _ ↦ persist io (store_settings account_id settings s.accounts) settings s
      ]

  unfoldable pub remove_account :
      Write → Text → AlertStore P → AlertStore P × Result AlertError (Unit {0})
  remove_account io account_id s = elim (lookup account_id s.accounts) [
    | none ↦ (record s { accounts = remove account_id s.accounts }, ok tt)
    | some _ ↦ persist io (remove account_id s.accounts) tt s
  ]

  unfoldable pub clear : Write → AlertStore P → AlertStore P × Result AlertError (Unit {0})
  clear io s = elim s.accounts [ [] ↦ (s, ok tt) | _ ∷ _ ↦ persist io [] tt s ]
