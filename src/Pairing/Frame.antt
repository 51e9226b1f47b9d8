-- ===== src/Pairing/Frame.antt =====
-- src-tauri/src/pairing/mod.rs: what most calls and events leave alone.
use ai_usage_tracker.Prelude.{◌≡◌, refl, Bool, true, false, Option, Text, ok, err, arith}
use ai_usage_tracker.Pairing.{
  PairingStatus, PairingSessionManager, cancel, select_role, take_confirm, offer_role_select,
  offer_sas_confirm,
}
use ai_usage_tracker.Pairing.Sessions.{
  open_host, advertised, close_session, handle_status, handle_host_event, handle_client_event,
  host_status, client_status, count_join,
}
use ai_usage_tracker.Pairing.History.{
  Action, Run, act, cancels, opens_host, advertises, host_events, client_events, counts_join,
  offers_role, offers_confirm, selects, takes,
}

module _ {V : Type 0} where
  -- The same epoch and options.
  abbrev pub IsSameRest : PairingSessionManager V → PairingSessionManager V → Type 0
  IsSameRest p q = (q.epoch ≡ p.epoch) × (q.options ≡ p.options)

  handle-IsSameRest :
      (sid : Text) (st : Option PairingStatus) (p : PairingSessionManager V)
      → IsSameRest p (handle_status sid st p).0
  unfolding handle_status close_session
  handle-IsSameRest sid st p = ground arith

  -- A call or an event that neither starts a session nor reads or writes the options.
  abbrev pub is_bystander : Action V → Bool
  is_bystander cancels = true
  is_bystander (opens_host epoch init tx) = true
  is_bystander (advertises sid adv) = true
  is_bystander (host_events sid e) = true
  is_bystander (client_events sid e) = true
  is_bystander (counts_join code resolved) = true
  is_bystander (offers_role sid tx) = true
  is_bystander (offers_confirm sid tx) = true
  is_bystander (selects l role) = true
  is_bystander (takes sid b) = true
  is_bystander other = false

  pub act-IsSameRest :
      (a : Action V) (r : Run V) → is_bystander a ≡ true → IsSameRest r.manager (act a r).manager
  unfolding act count_join cancel open_host advertised handle_host_event handle_client_event
      offer_role_select offer_sas_confirm select_role take_confirm
  act-IsSameRest cancels r h = (refl, refl)
  act-IsSameRest (opens_host epoch init tx) r h = ground arith
  act-IsSameRest (advertises sid adv) r h = ground arith
  act-IsSameRest (host_events sid e) r h = handle-IsSameRest sid (host_status sid e) r.manager
  act-IsSameRest (client_events sid e) r h = handle-IsSameRest sid (client_status sid e) r.manager
  act-IsSameRest (counts_join code (ok address)) r h = (refl, refl)
  act-IsSameRest (counts_join code (err e)) r h = (refl, refl)
  act-IsSameRest (offers_role sid tx) r h = ground arith
  act-IsSameRest (offers_confirm sid tx) r h = ground arith
  act-IsSameRest (selects l role) r h = ground arith
  act-IsSameRest (takes sid b) r h = ground arith
  act-IsSameRest other r h = cc
