-- ===== src/RefreshLoop/Lateness.antt =====
-- src-tauri/src/refresh_loop.rs: how late a refresh can be.
use ai_usage_tracker.Prelude.{
  ℕ, ◌+◌, ◌<◌, ◌≤◌, ◌≡◌, ◌≢◌, ◌⊎◌, refl, true, false, Option, some, List, [], ◌∷◌, arith,
  Bool-cases, inl, inr, ◌∙◌,
}
use ai_usage_tracker.RefreshLoop.{
  Wake, wakeup, tick, check, schedule_change, woken, account_refresh_is_due, is_turn_due,
  first_refresh,
}

-- The clock from one turn to the next: forward, and by at most a tick. The interval stays.
abbrev pub IsPaced : ℕ → ℕ → List (ℕ × ℕ × Wake) → Type 0
IsPaced before interval [] = Unit
IsPaced before interval ((now, i, wake) ∷ turns) =
    (before ≤ now)
    × (now ≤ before + 30)
    × (i ≡ interval)
    × (wake ≢ wakeup)
    × IsPaced now interval turns

-- The turns go on to the time.
abbrev pub Reaches : ℕ → List (ℕ × ℕ × Wake) → Type 0
Reaches time [] = ⊥
Reaches time ((now, i, wake) ∷ turns) = (time ≤ now) ⊎ Reaches time turns

-- A wake that is no wakeup keeps the last refresh.
woken-keeps :
    (wake : Wake) (last_refresh : Option ℕ) → wake ≢ wakeup → woken wake last_refresh ≡ last_refresh
unfolding woken
woken-keeps tick last_refresh n = refl
woken-keeps check last_refresh n = refl
woken-keeps schedule_change last_refresh n = refl
woken-keeps wakeup last_refresh n = absurd (n refl)

due-ge : (i now last : ℕ) → last ≤ now → is_turn_due i now (some last) ≡ true → last + i ≤ now
unfolding is_turn_due account_refresh_is_due
due-ge i now last l e = ground arith

not_due-lt : (i now last : ℕ) → is_turn_due i now (some last) ≡ false → now < last + i
unfolding is_turn_due account_refresh_is_due
not_due-lt i now last e = ground arith

reach_on : (time now : ℕ) (rest : Type 0) → now < time → (time ≤ now) ⊎ rest → rest
reach_on time now rest l (inl e) = absurd (omega (arith, l, e))
reach_on time now rest l (inr r) = r

first_refresh-wait :
    (last_refresh now i : ℕ) (wake : Wake) (turns : List (ℕ × ℕ × Wake))
    → is_turn_due i now (some last_refresh) ≡ false
    → wake ≢ wakeup
    → first_refresh (some last_refresh) ((now, i, wake) ∷ turns)
      ≡ first_refresh (some last_refresh) turns
unfolding first_refresh
first_refresh-wait last_refresh now i wake turns e keeps =
    rw (first_refresh, e, woken-keeps wake (some last_refresh) keeps) refl

-- When the clock goes forward by at most 30 seconds from one turn to the next, the interval stays,
-- and nothing wakes the loop up for a refresh, the first refresh after the last one comes when the
-- interval has passed and less than 30 seconds later, where the turns go on that long and the last
-- refresh is not due at the start.
pub first_refresh_in_time :
    (last_refresh interval before : ℕ) (turns : List (ℕ × ℕ × Wake))
    → last_refresh ≤ before
    → before < last_refresh + interval
    → IsPaced before interval turns
    → Reaches (last_refresh + interval) turns
    → (at : ℕ) × (first_refresh (some last_refresh) turns ≡ some at)
      × (last_refresh + interval ≤ at)
      × (at < last_refresh + interval + 30)
unfolding first_refresh
first_refresh_in_time last_refresh interval before [] l b p r = absurd r
first_refresh_in_time last_refresh interval before ((now, i, wake) ∷ turns) l b
      (low, high, same, keeps, p) r =
    elim (Bool-cases (is_turn_due i now (some last_refresh))) [
      | inl e ↦
          let ge = due-ge i now last_refresh (omega arith) e in
          (now, (rw (e, first_refresh) refl), omega arith, omega arith)
      | inr e ↦
          let lt = not_due-lt i now last_refresh e in
          let rest =
            first_refresh_in_time last_refresh interval now turns (omega arith) (omega arith) p (
              reach_on (last_refresh + interval) now (Reaches (last_refresh + interval) turns)
                (omega arith) r) in
          (
            rest.0,
            (first_refresh-wait last_refresh now i wake turns e keeps ∙ rest.1),
            rest.2,
            rest.3,
          )
    ]
