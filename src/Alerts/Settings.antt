-- ===== src/Alerts/Settings.antt =====
-- src-tauri/src/store/alerts.rs: the settings that are saved and those that are read.
use ai_usage_tracker.Prelude.{
  ◌≡◌, refl, subst, true, List, [], ◌∷◌, map, leb, if◌then◌else◌, Text, text_eq, inl, inr,
  Bool-cases, List-cases, arith,
}
use ai_usage_tracker.Prelude.Maps.{lookup, lookup-insert, lookup-remove}
use ai_usage_tracker.Alerts.{
  alert_window_ids, UsageAlertSetting, StoredUsageAlertSetting, position, insert_setting,
  sort_settings, public_setting, or_empty, get_settings, stored_setting, store_settings,
}

module _ {T : Type 0} (window_id : T → Text) where
  -- The place of the first setting is no later than this one's.
  abbrev pub Follows : T → List T → Type 0
  Follows t [] = Unit {0}
  Follows t (x ∷ xs) =
      leb (position alert_window_ids (window_id t)) (position alert_window_ids (window_id x)) ≡ true

  abbrev pub Sorted : List T → Type 0
  Sorted [] = Unit {0}
  Sorted (t ∷ ts) = Follows t ts × Sorted ts

  insert_setting-Follows :
      (t x : T) (xs : List T)
      → Follows x xs
      → leb (position alert_window_ids (window_id x)) (position alert_window_ids (window_id t))
        ≡ true
      → Follows x (insert_setting window_id t xs)
  unfolding insert_setting
  insert_setting-Follows t x [] f h = h
  insert_setting-Follows t x (y ∷ ys) f h =
      elim (Bool-cases
        (leb (position alert_window_ids (window_id t)) (position alert_window_ids (window_id y)))) [
          | inl e ↦ rw e h
          | inr n ↦ rw n f
        ]

  insert_setting-Sorted : (t : T) (xs : List T) → Sorted xs → Sorted (insert_setting window_id t xs)
  unfolding insert_setting
  insert_setting-Sorted t [] s = (tt, tt)
  insert_setting-Sorted t (x ∷ xs) s =
      elim (Bool-cases
        (leb (position alert_window_ids (window_id t)) (position alert_window_ids (window_id x)))) [
          | inl e ↦ rw e (e, s)
          | inr n ↦ rw n (
            insert_setting-Follows t x xs s.0 (ground (arith, n)),
            insert_setting-Sorted t xs s.1,
          )
        ]

  sort_settings-Sorted : (xs : List T) → Sorted (sort_settings window_id xs)
  unfolding sort_settings
  sort_settings-Sorted [] = tt
  sort_settings-Sorted (x ∷ xs) =
      insert_setting-Sorted x (sort_settings window_id xs) (sort_settings-Sorted xs)

  insert_setting_first :
      (t : T) (xs : List T) → Follows t xs → insert_setting window_id t xs ≡ t ∷ xs
  unfolding insert_setting
  insert_setting_first t [] f = refl
  insert_setting_first t (x ∷ xs) f = rw f refl

  sort_settings_self : (xs : List T) → Sorted xs → sort_settings window_id xs ≡ xs
  unfolding sort_settings
  sort_settings_self [] s = refl
  sort_settings_self (x ∷ xs) s = rw (sort_settings_self xs s.1) (insert_setting_first x xs s.0)

  pub sort_settings_twice :
      (xs : List T)
      → sort_settings window_id (sort_settings window_id xs) ≡ sort_settings window_id xs
  sort_settings_twice xs = sort_settings_self (sort_settings window_id xs) (sort_settings-Sorted xs)

abbrev stored_id : StoredUsageAlertSetting → Text
stored_id s = s.window_id

abbrev setting_id : UsageAlertSetting → Text
setting_id s = s.window_id

map-insert_setting :
    (existing : List StoredUsageAlertSetting) (t : UsageAlertSetting)
    (xs : List StoredUsageAlertSetting)
    → map public_setting (insert_setting stored_id (stored_setting existing t) xs)
      ≡ insert_setting setting_id t (map public_setting xs)
unfolding insert_setting public_setting stored_setting
map-insert_setting existing t [] = refl
map-insert_setting existing t (x ∷ xs) =
    elim (Bool-cases
      (leb (position alert_window_ids t.window_id) (position alert_window_ids x.window_id))) [
        | inl e ↦ rw e refl
        | inr n ↦ rw (n, map-insert_setting existing t xs) refl
      ]

map-sort_settings :
    (existing : List StoredUsageAlertSetting) (xs : List UsageAlertSetting)
    → map public_setting (sort_settings stored_id (map (stored_setting existing) xs))
      ≡ sort_settings setting_id xs
unfolding sort_settings
map-sort_settings existing [] = refl
map-sort_settings existing (x ∷ xs) =
    rw
      (
        map-insert_setting existing x (sort_settings stored_id (map (stored_setting existing) xs)),
        map-sort_settings existing xs,
      )
      refl

abbrev Reads : List StoredUsageAlertSetting → List UsageAlertSetting → Type 0
Reads stored settings =
    sort_settings setting_id (map public_setting stored) ≡ sort_settings setting_id settings

get-stored :
    (settings : List UsageAlertSetting) (existing : List StoredUsageAlertSetting)
    → sort_settings setting_id
        (map public_setting (sort_settings stored_id (map (stored_setting existing) settings)))
      ≡ sort_settings setting_id settings
get-stored settings existing =
    rw (map-sort_settings existing settings) (sort_settings_twice setting_id settings)

-- The settings read after a save are those saved, in the order of the windows; those of another
-- account are as they were.
pub get-store_settings :
    (account_id other : Text) (settings : List UsageAlertSetting)
    (accounts : List (Text × List StoredUsageAlertSetting))
    → get_settings other (store_settings account_id settings accounts) ≡ (
        if text_eq account_id other
        then sort_settings (λ s. s.window_id) settings
        else get_settings other accounts)
unfolding get_settings store_settings
get-store_settings account_id other settings accounts =
    let existing = or_empty (lookup account_id accounts) in
    let stored = sort_settings stored_id (map (stored_setting existing) settings) in
    let read = get-stored settings existing in
    elim (List-cases stored) [
      | inl e ↦ elim (Bool-cases (text_eq account_id other)) [
        | inl k ↦
            rw (e, lookup-remove account_id other accounts, k)
              (subst (λ x. Reads x settings) e read)
        | inr k ↦ rw (e, lookup-remove account_id other accounts, k) refl
      ]
      | inr (t, ts, e) ↦ elim (Bool-cases (text_eq account_id other)) [
        | inl k ↦
            rw (e, lookup-insert account_id other (t ∷ ts) accounts, k)
              (subst (λ x. Reads x settings) e read)
        | inr k ↦ rw (e, lookup-insert account_id other (t ∷ ts) accounts, k) refl
      ]
    ]
