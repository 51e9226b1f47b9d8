-- ===== src/Pairing/History.antt =====
-- src-tauri/src/commands/pairing.rs: the commands on the options, and the histories of a session
-- manager: any calls, events and commands in any order. A confirmation that has taken its channel
-- and not yet sent on it is in hand. The lookup of a code may end at any time, with any result.
use ai_usage_tracker.Prelude.{
  ℕ, Bool, false, not, Option, none, some, List, [], ◌∷◌, if◌then◌else◌, Text, Result, ok, err,
}
use ai_usage_tracker.Pairing.{
  PairingSessionManager, PairingHostInit, PairingTransferOptions, HostEvent, ClientEvent,
  PairingError, cancel, new, pairing_cancel, select_role, take_confirm, send_confirm,
  offer_role_select, offer_sas_confirm, clear_after_export, unfreeze,
}
use ai_usage_tracker.Pairing.Sessions.{
  begin_host, open_host, advertised, handle_host_event, handle_client_event, start_client,
  count_join,
}

module _ {V : Type 0} where
  unfoldable pub set_include_settings : Bool → PairingTransferOptions V → PairingTransferOptions V
  set_include_settings include o = record o { include_settings = include }

  -- `accepted` is the outcome of the checks on the value.
  unfoldable pub set_pending_ui_state :
      Result Text (Unit {0}) → V → PairingTransferOptions V → PairingTransferOptions V
  set_pending_ui_state (err e) ui_state o = o
  set_pending_ui_state (ok u) ui_state o = record o { pending_ui_state = some ui_state }

  unfoldable pub clear_pending_ui_state : PairingTransferOptions V → PairingTransferOptions V
  clear_pending_ui_state o = record o { pending_ui_state = none; include_settings = false }

  -- What the air-gap dialog writes before it exports.
  unfoldable pub choose_airgap :
      Bool → Option V → PairingTransferOptions V → PairingTransferOptions V
  unfolding unfreeze
  choose_airgap include_settings (some ui) o = record (unfreeze o) {
    include_settings = include_settings;
    pending_ui_state = some ui;
  }
  choose_airgap include_settings none o = record (unfreeze o) {
    include_settings = include_settings;
    pending_ui_state = if not include_settings then none else o.pending_ui_state;
  }

pub data Action (V : Type 0) : Type 0 where
  cancels cancels_for_good begins_host : Action V
  opens_host : ℕ → PairingHostInit → ℕ → Action V
  advertises : Text → ℕ → Action V
  host_events : Text → HostEvent → Action V
  client_events : Text → ClientEvent → Action V
  starts_client : Result Text Text → ℕ → Action V
  counts_join : Text → Result Text Text → Action V
  offers_role : Text → ℕ → Action V
  offers_confirm : Text → ℕ → Action V
  selects : Bool → Text → Action V
  takes : Text → Bool → Action V
  sends : Action V
  sets_include : Bool → Action V
  sets_ui_state : Result Text (Unit {0}) → V → Action V
  clears_ui_state exports : Action V
  chooses_airgap : Bool → Option V → Action V

pub record Run (V : Type 0) : Type 0 where
  pub manager : PairingSessionManager V
  pub in_hand : List (ℕ × Bool)

module _ {V : Type 0} where
  abbrev pub on_manager : (PairingSessionManager V → PairingSessionManager V) → Run V → Run V
  on_manager f r = record r { manager = f r.manager }

  abbrev pub on_options : (PairingTransferOptions V → PairingTransferOptions V) → Run V → Run V
  on_options f r = record r { manager = record r.manager { options = f r.manager.options } }

  abbrev pub taken_by : Bool → PairingSessionManager V × Result PairingError ℕ → Run V → Run V
  taken_by confirmed (p, ok tx) r = record { manager = p; in_hand = (tx, confirmed) ∷ r.in_hand }
  taken_by confirmed (p, err e) r = record r { manager = p }

  unfoldable pub send_next : Run V → Run V
  unfolding send_confirm
  send_next r = elim r.in_hand [
    | [] ↦ r
    | (tx, confirmed) ∷ rest ↦ record {
      manager = send_confirm tx confirmed r.manager;
      in_hand = rest;
    }
  ]

  unfoldable pub act : Action V → Run V → Run V
  act cancels r = on_manager cancel r
  act cancels_for_good r = on_manager pairing_cancel r
  act begins_host r = on_manager (λ p. (begin_host p).0) r
  act (opens_host epoch init cancel_tx) r = on_manager (λ p. (open_host epoch init cancel_tx p).0) r
  act (advertises sid adv) r = on_manager (advertised sid adv) r
  act (host_events sid event) r = on_manager (λ p. (handle_host_event sid event p).0) r
  act (client_events sid event) r = on_manager (λ p. (handle_client_event sid event p).0) r
  act (starts_client parsed cancel_tx) r = on_manager (λ p. (start_client parsed cancel_tx p).0) r
  act (counts_join code resolved) r = on_manager (count_join code resolved) r
  act (offers_role sid tx) r = on_manager (offer_role_select sid tx) r
  act (offers_confirm sid tx) r = on_manager (offer_sas_confirm sid tx) r
  act (selects listening role) r = on_manager (λ p. (select_role listening role p).0) r
  act (takes sid confirmed) r = taken_by confirmed (take_confirm sid r.manager) r
  act sends r = send_next r
  act (sets_include include) r = on_options (set_include_settings include) r
  act (sets_ui_state accepted ui_state) r = on_options (set_pending_ui_state accepted ui_state) r
  act clears_ui_state r = on_options clear_pending_ui_state r
  act exports r = on_options clear_after_export r
  act (chooses_airgap include ui) r = on_options (choose_airgap include ui) r

  unfoldable pub acts : List (Action V) → Run V → Run V
  unfolding act
  acts [] r = r
  acts (a ∷ rest) r = acts rest (act a r)

  -- The manager as the program starts, with nothing in hand.
  unfoldable pub fresh : Run V
  unfolding new
  fresh = record { manager = new; in_hand = [] }
