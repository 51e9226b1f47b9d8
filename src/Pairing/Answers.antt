-- ===== src/Pairing/Answers.antt =====
-- src-tauri/src/pairing/mod.rs: how often a channel for the confirmation of the code is answered.
use ai_usage_tracker.Prelude.{
  false, ℕ, ◌+◌, ◌≤◌, ◌≡◌, Bool, Option, none, some, List, [], ◌∷◌, ◌==◌, if◌then◌else◌, Text,
  Result, ok, err, Bool-cases, inl, inr, arith,
}
use ai_usage_tracker.Pairing.{
  PairingSessionManager, PairingHostInit, PairingStatus, ActiveSession, Sent, confirm_sent, cancel,
  network_bound, pairing_cancel, select_role, take_confirm, offer_role_select, offer_sas_confirm,
  log_close,
}
use ai_usage_tracker.Pairing.Sessions.{
  begin_host, open_host, advertised, close_session, handle_status, handle_host_event,
  handle_client_event, host_status, client_status, start_client, count_join, is_final,
}
use ai_usage_tracker.Pairing.History.{
  Action, Run, fresh, act, acts, send_next, cancels, cancels_for_good, begins_host, opens_host,
  advertises, host_events, client_events, starts_client, counts_join, offers_role, offers_confirm,
  selects, takes, sends, sets_include, sets_ui_state, clears_ui_state, exports, chooses_airgap,
}

-- The answers sent on the channel `t`.
unfoldable pub answers : ℕ → List Sent → ℕ
answers t [] = 0
answers t (confirm_sent u b ∷ sent) = (if u == t then 1 else 0) + answers t sent
answers t (other ∷ sent) = answers t sent

abbrev is_channel : ℕ → Option ℕ → ℕ
is_channel t none = 0
is_channel t (some u) = if u == t then 1 else 0

-- Whether the session holds the channel.
unfoldable pub held : ℕ → Option ActiveSession → ℕ
held t none = 0
held t (some s) = is_channel t s.sas_confirm_tx

unfoldable pub taken : ℕ → List (ℕ × Bool) → ℕ
taken t [] = 0
taken t ((u, b) ∷ rest) = (if u == t then 1 else 0) + taken t rest

answers-log_close :
    (t : ℕ) (s : Option ActiveSession) (sent : List Sent)
    → answers t (log_close s sent) ≡ answers t sent
unfolding answers
answers-log_close t s sent = ground arith

module _ {V : Type 0} where
  offered : ℕ → Action V → ℕ
  offered t (offers_confirm sid u) = if u == t then 1 else 0
  offered t other = 0

  -- How often a history offers the channel.
  pub offers : ℕ → List (Action V) → ℕ
  unfolding offered
  offers t [] = 0
  offers t (a ∷ rest) = offered t a + offers t rest

  weight : ℕ → PairingSessionManager V → ℕ
  weight t p = answers t p.sent + held t p.active

  cancel-weight : (t : ℕ) (p : PairingSessionManager V) → weight t (cancel p) ≤ weight t p
  unfolding weight cancel held
  cancel-weight t p = ground (arith, answers-log_close t p.active p.sent)

  close-weight :
      (t : ℕ) (sid : Text) (p : PairingSessionManager V)
      → weight t (close_session sid p) ≤ weight t p
  unfolding weight close_session held answers
  close-weight t sid p = ground arith

  handle-weight :
      (t : ℕ) (sid : Text) (st : Option PairingStatus) (p : PairingSessionManager V)
      → weight t (handle_status sid st p).0 ≤ weight t p
  unfolding handle_status weight answers
  handle-weight t sid none p = omega arith
  handle-weight t sid (some st) p = elim (Bool-cases (is_final st)) [
    | inl e ↦
        rw e (close-weight t sid (record p { status = st; sent = network_bound false ∷ p.sent }))
    | inr e ↦ rw e (omega arith)
  ]

  select-weight :
      (t : ℕ) (l : Bool) (role : Text) (p : PairingSessionManager V)
      → weight t (select_role l role p).0 ≤ weight t p
  unfolding weight select_role held answers
  select-weight t l role p = ground arith

  offer-weight :
      (t u : ℕ) (sid : Text) (p : PairingSessionManager V)
      → weight t (offer_sas_confirm sid u p) ≤ (if u == t then 1 else 0) + weight t p
  unfolding weight offer_sas_confirm held
  offer-weight t u sid p = ground arith

  offer_role-weight :
      (t u : ℕ) (sid : Text) (p : PairingSessionManager V)
      → weight t (offer_role_select sid u p) ≤ weight t p
  unfolding weight offer_role_select held
  offer_role-weight t u sid p = ground arith

  advertised-weight :
      (t adv : ℕ) (sid : Text) (p : PairingSessionManager V)
      → weight t (advertised sid adv p) ≤ weight t p
  unfolding weight advertised held answers
  advertised-weight t adv sid p = ground arith

  begin-weight : (t : ℕ) (p : PairingSessionManager V) → weight t (begin_host p).0 ≤ weight t p
  unfolding begin_host weight
  begin-weight t p = cancel-weight t p

  open-weight :
      (t epoch cancel_tx : ℕ) (init : PairingHostInit) (p : PairingSessionManager V)
      → weight t (open_host epoch init cancel_tx p).0 ≤ weight t p
  unfolding open_host weight held
  open-weight t epoch cancel_tx init p = ground arith

  start-weight :
      (t cancel_tx : ℕ) (parsed : Result Text Text) (p : PairingSessionManager V)
      → weight t (start_client parsed cancel_tx p).0 ≤ weight t p
  unfolding start_client weight held
  start-weight t cancel_tx (err e) p = begin-weight t p
  start-weight t cancel_tx (ok sid) p = omega (arith, begin-weight t p)

  count-weight :
      (t : ℕ) (code : Text) (resolved : Result Text Text) (p : PairingSessionManager V)
      → weight t (count_join code resolved p) ≤ weight t p
  unfolding weight count_join
  count-weight t code (ok address) p = omega arith
  count-weight t code (err e) p = omega arith

  total : ℕ → Run V → ℕ
  total t r = weight t r.manager + taken t r.in_hand

  take-total :
      (t : ℕ) (sid : Text) (b : Bool) (r : Run V) → total t (act (takes sid b) r) ≤ total t r
  unfolding total weight act take_confirm held taken
  take-total t sid b r = ground arith

  send-total : (t : ℕ) (r : Run V) → total t (send_next r) ≤ total t r
  unfolding total weight send_next taken answers
  send-total t r = ground arith

  act-total : (t : ℕ) (a : Action V) (r : Run V) → total t (act a r) ≤ offered t a + total t r
  unfolding total act offered weight pairing_cancel handle_host_event handle_client_event answers
  act-total t cancels r = omega (arith, cancel-weight t r.manager)
  act-total t cancels_for_good r = omega (arith, cancel-weight t r.manager)
  act-total t begins_host r = omega (arith, begin-weight t r.manager)
  act-total t (opens_host epoch init tx) r = omega (arith, open-weight t epoch tx init r.manager)
  act-total t (advertises sid adv) r = omega (arith, advertised-weight t adv sid r.manager)
  act-total t (host_events sid e) r =
      omega (arith, handle-weight t sid (host_status sid e) r.manager)
  act-total t (client_events sid e) r =
      omega (arith, handle-weight t sid (client_status sid e) r.manager)
  act-total t (starts_client parsed tx) r = omega (arith, start-weight t tx parsed r.manager)
  act-total t (counts_join code resolved) r = omega (arith, count-weight t code resolved r.manager)
  act-total t (offers_role sid tx) r = omega (arith, offer_role-weight t tx sid r.manager)
  act-total t (offers_confirm sid tx) r = omega (arith, offer-weight t tx sid r.manager)
  act-total t (selects l role) r = omega (arith, select-weight t l role r.manager)
  act-total t (takes sid b) r = omega (arith, take-total t sid b r)
  act-total t sends r = omega (arith, send-total t r)
  act-total t (sets_include b) r = omega arith
  act-total t (sets_ui_state a v) r = omega arith
  act-total t clears_ui_state r = omega arith
  act-total t exports r = omega arith
  act-total t (chooses_airgap b v) r = omega arith

  acts-total :
      (t : ℕ) (h : List (Action V)) (r : Run V) → total t (acts h r) ≤ offers t h + total t r
  unfolding acts offers
  acts-total t [] r = omega arith
  acts-total t (a ∷ h) r = omega (arith, acts-total t h (act a r), act-total t a r)

  -- Over any history of calls, events and commands on a new session manager, with confirmations
  -- that wait between taking a channel and sending on it, a channel for the confirmation of the
  -- code is answered at most as often as it was offered.
  pub answers-le-offers :
      (t : ℕ) (h : List (Action V)) → answers t (acts h fresh).manager.sent ≤ offers t h
  unfolding total weight fresh answers held taken
  answers-le-offers t h = omega (arith, acts-total t h fresh)
