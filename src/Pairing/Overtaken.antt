-- ===== src/Pairing/Overtaken.antt =====
-- src-tauri/src/pairing/mod.rs: starts of sessions that overtake each other.
use ai_usage_tracker.Prelude.{
  ℕ, ◌+◌, ◌%◌, ◌<◌, ◌≤◌, ◌⊎◌, suc, length, ◌≡◌, ◌≢◌, ◌==◌, ==_iff, refl, List, [], ◌∷◌, Text,
  Result, ok, err, Bool-cases, inl, inr, arith,
}
use ai_usage_tracker.Prelude.Split.{u64_bound}
use ai_usage_tracker.Pairing.{
  PairingSessionManager, PairingHostInit, interrupted, cancel, pairing_cancel, send_confirm,
}
use ai_usage_tracker.Pairing.Sessions.{begin_host, open_host, start_client}
use ai_usage_tracker.Pairing.Frame.{act-IsSameRest}
use ai_usage_tracker.Pairing.History.{
  Action, Run, act, acts, send_next, cancels_for_good, begins_host, starts_client, sends,
  sets_include, sets_ui_state, clears_ui_state, exports, chooses_airgap,
}

-- Nothing or one more.
IsNext : ℕ → ℕ → Type 0
IsNext e d = (d ≡ e) ⊎ (d ≡ (e + 1) % u64_bound)

wraps :
    (e k l before after : ℕ)
    → e < u64_bound
    → k + l + 1 < u64_bound
    → before ≡ ((e + 1) % u64_bound + k) % u64_bound
    → after ≡ ((before + 1) % u64_bound + l) % u64_bound
    → after ≢ (e + 1) % u64_bound
wraps e k l before after b few p q same = omega (arith, p, q, same, few, b)

module _ {V : Type 0} where
  open_host-refused :
      (epoch tx : ℕ) (init : PairingHostInit) (p : PairingSessionManager V)
      → p.epoch ≢ epoch
      → open_host epoch init tx p ≡ (p, err interrupted)
  unfolding open_host
  open_host-refused epoch tx init p n = elim (Bool-cases (p.epoch == epoch)) [
    | inl e ↦ absurd (n ((==_iff p.epoch epoch).0 e))
    | inr e ↦ rw e refl
  ]

  start_client-epoch :
      (parsed : Result Text Text) (tx : ℕ) (p : PairingSessionManager V)
      → (start_client parsed tx p).0.epoch ≡ (p.epoch + 1) % u64_bound
  unfolding start_client begin_host cancel
  start_client-epoch (err e) tx p = refl
  start_client-epoch (ok sid) tx p = refl

  act-epoch : (a : Action V) (r : Run V) → IsNext r.manager.epoch (act a r).manager.epoch
  unfolding act IsNext begin_host cancel pairing_cancel send_next send_confirm
  act-epoch begins_host r = inr refl
  act-epoch (starts_client parsed tx) r = inr (start_client-epoch parsed tx r.manager)
  act-epoch cancels_for_good r = inl refl
  act-epoch sends r = inl (ground arith)
  act-epoch (sets_include b) r = inl refl
  act-epoch (sets_ui_state b v) r = inl refl
  act-epoch clears_ui_state r = inl refl
  act-epoch exports r = inl refl
  act-epoch (chooses_airgap b v) r = inl refl
  act-epoch other r = inl (act-IsSameRest other r refl).0

  acts-epoch :
      (h : List (Action V)) (r : Run V)
      → r.manager.epoch < u64_bound
      → (k : ℕ) × (k ≤ length h) × ((acts h r).manager.epoch ≡ (r.manager.epoch + k) % u64_bound)
  unfolding acts IsNext
  acts-epoch [] r b = (0, omega arith, omega (arith, b))
  acts-epoch (a ∷ h) r b = elim (act-epoch a r) [
    | inl e ↦
        let later = acts-epoch h (act a r) (rw e b) in
        (later.0, omega (arith, later.1), rw (later.2, e) refl)
    | inr e ↦
        let later = acts-epoch h (act a r) (omega (arith, e)) in
        (suc later.0, omega (arith, later.1), omega (arith, later.2, e))
  ]

  -- A start of a host that finds that another has begun since it began is refused and changes
  -- nothing, whatever else has happened in between, in histories shorter than the count of a u64.
  pub open_host-overtaken :
      (r : Run V) (h later : List (Action V)) (init : PairingHostInit) (tx : ℕ)
      → r.manager.epoch < u64_bound
      → length h + length later + 1 < u64_bound
      → let begun = act begins_host r in
        let now = (acts later (act begins_host (acts h begun))).manager in
        open_host (begin_host r.manager).1 init tx now ≡ (now, err interrupted)
  unfolding act begin_host cancel
  open_host-overtaken r h later init tx b few =
      let begun : Run V = act begins_host r in
      let before = acts-epoch h begun (omega arith) in
      let after = acts-epoch later (act begins_host (acts h begun)) (omega arith) in
      open_host-refused _ tx init _ (λ e.
        wraps r.manager.epoch before.0 after.0 _ _ b (omega (arith, before.1, after.1, few))
          before.2 after.2 e)
